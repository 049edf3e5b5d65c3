-- ===== src/Shim/Thread.antt =====
-- stdlib/jemalloc.c: what jemalloc is given for threads and for the files it reads. The program has
-- one thread, so there is one value for every key, and locks always succeed.
use mathlib.Core.Path.{ap₂}
use rebench.Base.{
  ◌>>=◌, ℕ, ◌≡◌, refl, sym, ap, ◌∙◌, List, [], ◌∷◌, arith, ◌==◌, if◌then◌else◌, All, M, done, ◌>>◌,
  get, modify, Returns, returns, pure, Returns-and_then,
}

-- `thread_value` (0 is NULL) and the bytes that `read` may store to.
pub record Shim : Type 0 where
  pub thread_value : ℕ
  pub byte : ℕ → ℕ

unfoldable pub s_pthread_self : M Shim ℕ
s_pthread_self = pure 1

-- *key = 1; the key is given back beside the result.
unfoldable pub s_pthread_key_create : M Shim (ℕ × ℕ)
s_pthread_key_create = pure (1, 0)

unfoldable pub s_pthread_getspecific : ℕ → M Shim ℕ
s_pthread_getspecific key = do s ← get; pure s.thread_value

unfoldable pub s_pthread_setspecific : ℕ → ℕ → M Shim ℕ
s_pthread_setspecific key v = do modify (λ s. record s { thread_value = v }); pure 0

-- The functions that do nothing and return 0.
pub data Idle : Type 0 where
  s_pthread_atfork s_prctl : Idle
  s_pthread_mutex_init s_pthread_mutexattr_init s_pthread_mutexattr_destroy : Idle
  s_pthread_mutexattr_settype s_pthread_mutex_lock s_pthread_mutex_unlock : Idle

unfoldable pub call_idle : Idle → M Shim ℕ
call_idle f = pure 0

-- Only /proc/sys/vm/overcommit_memory is opened.
unfoldable pub s___open_2 : M Shim ℕ
s___open_2 = pure 3

unfoldable pub s___read_chk : (fd buf nbyte : ℕ) → M Shim ℕ
s___read_chk fd buf nbyte = do
  modify (λ s. record s { byte = λ a. if a == buf then b'1' else s.byte a })
  pure 1

unfoldable pub s_close : ℕ → M Shim ℕ
s_close fd = pure 0

-- Only _SC_NPROCESSORS_ONLN is asked for.
unfoldable pub s_sysconf : ℕ → M Shim ℕ
s_sysconf name = pure 1

-- What a client of thread-specific data does.
pub data Use : Type 0 where
  set_specific : (key v : ℕ) → Use
  get_specific : (key : ℕ) → Use

-- The values that the reads of a client give, in order.
unfoldable pub run_uses : List Use → M Shim (List ℕ)
unfolding s_pthread_getspecific s_pthread_setspecific
run_uses [] = pure []
run_uses (set_specific key v ∷ uses) = s_pthread_setspecific key v >> run_uses uses
run_uses (get_specific key ∷ uses) = do
  v ← s_pthread_getspecific key
  vs ← run_uses uses
  pure (v ∷ vs)

-- What POSIX promises: each key has a value of its own.
unfoldable pub posix_reads : (ℕ → ℕ) → List Use → List ℕ
posix_reads values [] = []
posix_reads values (set_specific key v ∷ uses) =
    posix_reads (λ k. if k == key then v else values k) uses
posix_reads values (get_specific key ∷ uses) = values key ∷ posix_reads values uses

abbrev pub key_of : Use → ℕ
key_of (set_specific key v) = key
key_of (get_specific key) = key

module _ (key : ℕ) where
  -- A client that uses one key, starting with the value that the key has, reads what POSIX
  -- promises, and no memory changes.
  pub run_uses-posix :
      (uses : List Use) (values : ℕ → ℕ) (s : Shim)
      → All (λ u. key_of u ≡ key) uses
      → s.thread_value ≡ values key
      → Returns (λ vs t. (vs ≡ posix_reads values uses) × (t.byte ≡ s.byte)) (run_uses uses s)
  unfolding run_uses posix_reads
  run_uses-posix [] values s same h = returns (refl, refl)
  run_uses-posix (set_specific k v ∷ uses) values s (e, same) h =
      run_uses-posix uses (λ j. if j == k then v else values j) (record s { thread_value = v }) same
        (ground arith)
  run_uses-posix (get_specific k ∷ uses) values s (e, same) h =
      Returns-and_then (run_uses-posix uses values s same h)
        λ vs t (reads, bytes). returns (ap₂ ◌∷◌ (h ∙ ap values (sym e)) reads, bytes)

-- Two keys share their value, which POSIX forbids.
keys_shared :
    (j k v w : ℕ) (s : Shim)
    → run_uses (set_specific j v ∷ set_specific k w ∷ get_specific j ∷ []) s
      ≡ done (w ∷ []) (record s { thread_value = w })
unfolding run_uses
keys_shared j k v w s = refl
