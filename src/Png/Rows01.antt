-- ===== src/Png/Rows01.antt =====
-- Lines 2 to 151 of ututna/test_png.c, a row of twelve bytes as one number.
use Prim.Native.Nat.{ℕ}
use mathlib.Core.List.{List, [], ◌∷◌}

unfoldable pub rows_01 : List ℕ
rows_01 =
    42496530066337529917488496653 ∷ 22679771009524294696568881664 ∷ 2478297930244640108250660896
    ∷ 88573910877855293744197669 ∷ 61730018960584115267637864558 ∷ 30374388724703553094542312529
    ∷ 51399692324387250395784442072 ∷ 15901200937948740973833915692 ∷ 42542667239099100061651117259
    ∷ 46708098028500042512776323787 ∷ 46554275767534638939963148688 ∷ 16102968078603595747861978743
    ∷ 46977618035206518821113152834 ∷ 1195934568939428995739837797 ∷ 31361943278335317165849873034
    ∷ 42876417360660700344741431946 ∷ 42876417360660700344741431946 ∷ 42876417360660700344741431946
    ∷ 42876417360660700344741431946 ∷ 42876417360660700344741431946 ∷ 42876417360660700344741431946
    ∷ 42876417360660700344741431946 ∷ 42876417360660700344741431946 ∷ 42876417360660700344741431946
    ∷ 42876417360660700344741431946 ∷ 42876417360660700344741431946 ∷ 42876417360660700344741431946
    ∷ 42876417360660700344741431946 ∷ 42876417360660700344741431946 ∷ 42876417360660700344741431946
    ∷ 42876417360660700344741431946 ∷ 42876417360660700344741431946 ∷ 42876417360660700344741431946
    ∷ 42876417360660700344741431946 ∷ 42876417360660700344741431946 ∷ 42876417360660700344741431946
    ∷ 42876417360660700344741431946 ∷ 42876417360660700344741431946 ∷ 42876417360660700344741431946
    ∷ 42876417360660700344741431946 ∷ 42876417360660700344741431946 ∷ 42876417360660700344741431946
    ∷ 42876417360660700344741431946 ∷ 42876417360660700344741431946 ∷ 42876417360660700344741431946
    ∷ 42876417360660700344741431946 ∷ 7149523291007363930292210021 ∷ 24274552443523202970973273004
    ∷ 75622437825642418341689739349 ∷ 9434376841014684642686060254 ∷ 48469660546362486344720249699
    ∷ 9516375284195380221302189605 ∷ 52613248421529706465805760285 ∷ 70200144287682945523475641175
    ∷ 31555490798296530097932428738 ∷ 75325518221131370197498901494 ∷ 51133308604557709287388507652
    ∷ 68307683447477209355916337616 ∷ 69530598460266434830705938020 ∷ 63899959739788946924255048254
    ∷ 38129247297009213610533050731 ∷ 57551178522917568250791817887 ∷ 25261191582449280079443220715
    ∷ 55652181498122741529355147100 ∷ 76080967765233102235592529913 ∷ 75598508447007494328009475908
    ∷ 6499288344731018921305468215 ∷ 35212581199434107686826777038 ∷ 67036685850382350001187350318
    ∷ 35118590434262516271451073485 ∷ 61734962273382235619182538271 ∷ 9111444008617399744425576076
    ∷ 8349131623983065093887598300 ∷ 71200668173716840524921496250 ∷ 20760883503119753659472924092
    ∷ 72119941656791742060550812441 ∷ 18360931276672171870019761766 ∷ 29541299274312328842895646344
    ∷ 77909419947628078456659035406 ∷ 75971165618036177292801425101 ∷ 20730391732093638716826381671
    ∷ 57316351819954775773557032256 ∷ 61214628107912746430574248748 ∷ 7991059999809020751596615742
    ∷ 79190741848379842431997055613 ∷ 57434683655460258818630984444 ∷ 46808750620576131855356855024
    ∷ 71417882423964664918400746385 ∷ 76729076593230544833790009593 ∷ 54412223649738908173620370958
    ∷ 53248310416148462691480776344 ∷ 35047835956439703108334767493 ∷ 78421380322995775048721244847
    ∷ 43459569725306371746984836262 ∷ 39252882433025551115261183 ∷ 15771001049787131995199273276
    ∷ 48309822666276192988925773280 ∷ 59570796976826182559566115157 ∷ 41786620995539673104236786140
    ∷ 74467034367587527682540493006 ∷ 67346766469343878949344612960 ∷ 12518178672566978699004297168
    ∷ 56689479406016426885588253910 ∷ 70326227232671439798043007535 ∷ 13323216800220386375387015662
    ∷ 18188071742800718228966601203 ∷ 78273205210061347752549873775 ∷ 21998823542410039407427486471
    ∷ 24276160473446312667139400385 ∷ 75379343640046886437251737503 ∷ 44387730000200485096387181451
    ∷ 49210207040860895763802590074 ∷ 18227737985011207710713116601 ∷ 7906285304615648978938308281
    ∷ 69978629155457463955852148602 ∷ 64263101477362904887996205698 ∷ 42838943601760768208890858095
    ∷ 59186417790597737893758690609 ∷ 9550187741091070641960180591 ∷ 70035372726036020469032872598
    ∷ 43013993930893749563631859702 ∷ 46674710184733834042662773222 ∷ 70326180008263993573703548652
    ∷ 48856000795132886237829619682 ∷ 10957395101884122357039628960 ∷ 69976106537521976716100978239
    ∷ 47419993445086214820417005358 ∷ 70270677749302471322317864282 ∷ 27924122703700807214754430391
    ∷ 8941106957224546785141911678 ∷ 28465426050625787559522686378 ∷ 66553782931160992266230908627
    ∷ 43094946584223140921355779152 ∷ 48594082285573477204898214366 ∷ 28309262092555847175987193149
    ∷ 39281862754337488362936744494 ∷ 26637696039821065193838755074 ∷ 41577618172462263836337163867
    ∷ 44551282238865880642969723706 ∷ 66485337027506214445736642244 ∷ 47097908693248425252351610866
    ∷ 32165761488793460957929009428 ∷ 59408788645938792071837259008 ∷ 6556035314757876507737857109
    ∷ 39284768468859575165253543402 ∷ 3662737172452412842544606501 ∷ 76879641725098954240260040140
    ∷ 332288019880976112304817592 ∷ 29500222286556547501798407511 ∷ 48048304193280628006673494024
    ∷ []
