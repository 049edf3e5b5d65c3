-- ===== src/Png/Rows19.antt =====
-- Lines 2702 to 2851 of ututna/test_png.c, a row of twelve bytes as one number.
use Prim.Native.Nat.{ℕ}
use mathlib.Core.List.{List, [], ◌∷◌}

unfoldable pub rows_19 : List ℕ
rows_19 =
    11602182335797603554712512533 ∷ 5187311784749532962152444889 ∷ 8999760784241559649797244941
    ∷ 10379899406362201603682374261 ∷ 3387820103959528952901439117 ∷ 52874517715543159112905753248
    ∷ 79006033710309256842925972553 ∷ 43509257040171311465078760980 ∷ 44842015789792382653178735218
    ∷ 72464571496157073793627978453 ∷ 55583935893455743243024135989 ∷ 23890334474126108767597849440
    ∷ 57106606629058191410825999193 ∷ 26163621455916871704412803180 ∷ 37407386986591228437008821926
    ∷ 55148155763334653881752517565 ∷ 37779773087392458459388485910 ∷ 40562361028137114667069760943
    ∷ 5297101271608078522463711757 ∷ 3212117507401398413615719321 ∷ 77055926468825577342952780108
    ∷ 65551780795876964954080588744 ∷ 16021549125207055629817715046 ∷ 53245456554958730797144643266
    ∷ 52597829790776410104333594667 ∷ 33993437985266232156432278986 ∷ 65066408463996914978949834423
    ∷ 3393931393324332022558085942 ∷ 32691431452452936762680519346 ∷ 36634135727955021684412675105
    ∷ 30504700116491820771145659468 ∷ 38704613081058123544113700744 ∷ 66851923630684374217513173258
    ∷ 70892810352236665980164626209 ∷ 66855809870059262664912338067 ∷ 68616938101309211362174915384
    ∷ 1424239804362219899399669690 ∷ 18337315173366741165830390849 ∷ 26075157262866537265511024087
    ∷ 6138741447710826210113494754 ∷ 27978027129321039080463910207 ∷ 22997930670083073099052100681
    ∷ 17805440303474380336356656994 ∷ 64491341486797753536124281061 ∷ 78721488600546127902730694338
    ∷ 9163034339385668518195917599 ∷ 72095320562115757680118393370 ∷ 29608565922974612506431631089
    ∷ 48712951152919495072885329882 ∷ 28266103255956771219755815096 ∷ 71473632393226837528255426813
    ∷ 19539331079881822852789472328 ∷ 58365233868970610564341494171 ∷ 4871062337825935381860916152
    ∷ 70951974678843234754207461376 ∷ 71832945175765448035290975513 ∷ 58499388795718306331923777324
    ∷ 225165505031785783779184770 ∷ 54878829221561688179694356310 ∷ 25096544469998842378971678730
    ∷ 55704037295111810357615050952 ∷ 59890545940642305195979588543 ∷ 38062238231362903790203063638
    ∷ 9587014697669470006813416032 ∷ 37773020665434286975869389990 ∷ 63113680051082135227261154200
    ∷ 25436377986023991192652816993 ∷ 464787586287515643439466034 ∷ 64805970274256122725607209962
    ∷ 35055978432401070737824540043 ∷ 77774159447668299318681234312 ∷ 54832535058409604014603708644
    ∷ 65629172989263246482182178667 ∷ 54273066272593366268627891852 ∷ 62043497601735755313910541421
    ∷ 53139474721978773940982676620 ∷ 31412943367869900379472948150 ∷ 72507502021876833970633202005
    ∷ 17850544000134674998977536213 ∷ 30920345484787072859877038086 ∷ 15902926947954108897497022642
    ∷ 56199907033489788587282442944 ∷ 6886151131248149347843465116 ∷ 55375622536104033560367228971
    ∷ 957539989316655334550900641 ∷ 66653802790689616350243173260 ∷ 62252012665003035347294927535
    ∷ 8467442095083352255539904 ∷ 6886152304063505021007726694 ∷ 63985644687118574479017312352
    ∷ 1691257862277052615310016869 ∷ 13159757101746769249220075129 ∷ 36368403886123870813972874880
    ∷ 64054350709465194165607012659 ∷ 46433893691777143076026844234 ∷ 5660650226229766970959462632
    ∷ 4481308293688990266702682430 ∷ 60194707071272364112626193797 ∷ 72748640051383916596523533980
    ∷ 35732285331361718941972563459 ∷ 57396483895845844400013746972 ∷ 5564258974948054652271317021
    ∷ 31601022536751698403641488527 ∷ 24166430224052942696684978900 ∷ 6661915362692153829522408064
    ∷ 65660014294715044966451893512 ∷ 15632113761823514078059512029 ∷ 30262101911902939058007834804
    ∷ 36445876392570533154981975516 ∷ 30125678338576670333973609951 ∷ 45516889114322653956065521392
    ∷ 59539447057608778959821123271 ∷ 46166435112054578854803240621 ∷ 6394624941565956816056115770
    ∷ 914003561367121158653016012 ∷ 19856966829330874414876863994 ∷ 51621387930747177919787569530
    ∷ 3719984499826937925033792011 ∷ 23608094762402824839153452555 ∷ 39902791595716063023529374481
    ∷ 69578805786667754573886016208 ∷ 15181033601139809165653604859 ∷ 7540674896752235501744870494
    ∷ 10084677178647666769322409446 ∷ 78661490840691999793974625228 ∷ 77976827308959115086169604270
    ∷ 54908285631177978627337865346 ∷ 111270215346392429511139127 ∷ 78582830953645421649113338011
    ∷ 41539431960026315102873297101 ∷ 57164414825152915783450607709 ∷ 40548887126522809862451683985
    ∷ 13673355237221018568042445256 ∷ 24130550755228185596640018286 ∷ 77629223318323130689927668491
    ∷ 51419076087490544424921446873 ∷ 29202938320146571144460674345 ∷ 1228080969337904355688488661
    ∷ 20983127146316396697646116614 ∷ 62531286822808117515752257972 ∷ 50653234867702747727166177744
    ∷ 3477711238456642499235761976 ∷ 30399696381840621424795159370 ∷ 31381577937872557655336089344
    ∷ 13617918942780858940879485969 ∷ 42249240803954069166366784069 ∷ 65358296545573922947175725847
    ∷ 23019430924192339418158412019 ∷ 27927669640655724460105818170 ∷ 40333358747228513858148631200
    ∷ []
