-- ===== src/Png/Rows29.antt =====
-- Lines 4202 to 4269 of ututna/test_png.c, a row of twelve bytes as one number.
use Prim.Native.Nat.{ℕ}
use mathlib.Core.List.{List, [], ◌∷◌}

unfoldable pub rows_29 : List ℕ
rows_29 =
    39112524710276273462277448226 ∷ 10656514488982567619988099345 ∷ 41798758199613902299343290448
    ∷ 25787686827665979444662318959 ∷ 16778945084518634376103665426 ∷ 36350534005566012568929182242
    ∷ 32935274446608324247230995221 ∷ 34450699548970229861392347244 ∷ 32623550259696333935247644522
    ∷ 35108950132673111047005238131 ∷ 23302401313563269708620094407 ∷ 66147431612868124173081705924
    ∷ 42423572397197672942227813350 ∷ 63457796321661776574057193423 ∷ 48621882369472726439302473421
    ∷ 31067440319676500162289026338 ∷ 25153241291703768429852495275 ∷ 79206061230427175765041535411
    ∷ 50022486091302807115040786191 ∷ 51165261823912567591878768923 ∷ 18716524108514745993601134768
    ∷ 15119880787417128023763085380 ∷ 58078901327478585140451623450 ∷ 8389516968424652366887053443
    ∷ 2184860781031337957186224878 ∷ 44159902523392104162783360044 ∷ 9903766840367535371416340956
    ∷ 50067392587611967224399916001 ∷ 60513030502516297173265882663 ∷ 51164656052910570912883855764
    ∷ 75505810920642127249263273715 ∷ 63754215067914056119055260627 ∷ 72219972129099879552232655761
    ∷ 22481906706601421467896836964 ∷ 57919906245892537545838052856 ∷ 78284969479022715243537270027
    ∷ 76431873774077284666088193015 ∷ 71864491436336978839261077012 ∷ 26416672467669899430026197878
    ∷ 23933463365233241455087852058 ∷ 8131571668771717396078525692 ∷ 78082461145585532996556000564
    ∷ 9035985147702865520047512025 ∷ 67687057544720426192008730876 ∷ 68541106154541719715673664471
    ∷ 32608365592606815334892154542 ∷ 53988432444953247197488480663 ∷ 55194927633798973748113715082
    ∷ 63024461517443327035846467991 ∷ 61872444467476298348533693543 ∷ 11851141902101937921371478041
    ∷ 7830959790049860211446004431 ∷ 26228245353726161182738161482 ∷ 23302554984067403920096008949
    ∷ 6796481009652081883789443562 ∷ 56833044083401741417483612515 ∷ 29363559093676131425566343688
    ∷ 10372660308228247730029863300 ∷ 5031587658426682630027350082 ∷ 2516398282899777142493677601
    ∷ 40871675935708278300694643728 ∷ 20435840329001351790298415624 ∷ 10372660308228247730029863300
    ∷ 5031587658426682630027350082 ∷ 2516398282899777142493677601 ∷ 40871675935708278300694643728
    ∷ 20435840329001598760999911868 ∷ 37216640265057967411742900297 ∷ []
