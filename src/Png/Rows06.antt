-- ===== src/Png/Rows06.antt =====
-- Lines 752 to 901 of ututna/test_png.c, a row of twelve bytes as one number.
use Prim.Native.Nat.{ℕ}
use mathlib.Core.List.{List, [], ◌∷◌}

unfoldable pub rows_06 : List ℕ
rows_06 =
    44034727735837698886683450847 ∷ 71577770797097901653875425219 ∷ 61066119926481335851345346296
    ∷ 19292069892381422656790154801 ∷ 54268485176644456033978351037 ∷ 25349458680084871038114445525
    ∷ 44955539747920603223689705586 ∷ 28426431209702597312323492721 ∷ 36697317461275245583521196532
    ∷ 68866144562899666358584258971 ∷ 12068502479556431670274409984 ∷ 63600177867902923933720916829
    ∷ 10206358557781037236123672124 ∷ 53443818332069313631395150705 ∷ 39636043149664433178055895497
    ∷ 47769021675994732680821095620 ∷ 35977551458636901226880608270 ∷ 4488516008377749893015194842
    ∷ 44637238644683008103762047996 ∷ 66408468696261030458122582621 ∷ 39009753501454335861225895395
    ∷ 59266596981118877112628817987 ∷ 60512748046848560308468457172 ∷ 30236559551067657289957571287
    ∷ 55459323366689849507835984452 ∷ 6500201322009205965988077279 ∷ 78650673409495560937975420395
    ∷ 70861560945050434046389108443 ∷ 30574996440320607465894613975 ∷ 41524699942319983563950343288
    ∷ 62963269309637329233550209126 ∷ 3637606909721501478640279655 ∷ 48547599999211896279661905609
    ∷ 6093230050840727941913758226 ∷ 41944615854681645735405128323 ∷ 66448301899629298142379209590
    ∷ 13601146062842692786197101481 ∷ 27248042421916456307686458615 ∷ 2685555004709057793147757486
    ∷ 23692390660233458000623087665 ∷ 31077999407802245809551137681 ∷ 43277089709518390551993476668
    ∷ 35751806974676759573335746518 ∷ 76953964026725327937709504646 ∷ 46573619324485200459222251894
    ∷ 9483083389352172986396110460 ∷ 50433669591375523343128754988 ∷ 2390734280672046793295568671
    ∷ 71720088303559580336809524814 ∷ 61265375525942023846758567777 ∷ 69013977861635148437852875988
    ∷ 61542163355238035193374999547 ∷ 48533687445494766974236997810 ∷ 59312957639792494671895410281
    ∷ 67102381105751264425498684926 ∷ 44018773688844338754600571756 ∷ 24468967806899863946605566299
    ∷ 6107965042730110958157928862 ∷ 21074065005390191541414566094 ∷ 45791522812920757911503541997
    ∷ 12790206736808905461731013849 ∷ 54198627412865275444237843087 ∷ 17416106311645123614247794303
    ∷ 33350026435477445920328292632 ∷ 77132000594927462786578828856 ∷ 56071752182390810151623954397
    ∷ 38906436860336096334016204292 ∷ 49249894239240744513227989484 ∷ 23647446026100140513458059004
    ∷ 42664468831660865757688584217 ∷ 54840833186748033145665091268 ∷ 51922268315885150663162303578
    ∷ 28286952651151385823307505342 ∷ 13907234249148239636078492893 ∷ 18113745080751680064670999727
    ∷ 20837052233537561862116077038 ∷ 74884787506896860025001335765 ∷ 61575413752135792026872066747
    ∷ 70488130222312056383837752427 ∷ 54932096954810835219258640341 ∷ 11594762388594076402515180754
    ∷ 51753772516753455307875557996 ∷ 73794540579135547458124754191 ∷ 20676492608243128663571975384
    ∷ 8921816345572748812665146263 ∷ 42674873832946396351357164777 ∷ 48489000699705434511695217711
    ∷ 62367329509703839107757186016 ∷ 29859558055908295452648951340 ∷ 22002383090036695505181239180
    ∷ 77666857573511656241649071219 ∷ 56528675033301131962157059302 ∷ 29046091396125929182924141403
    ∷ 23800786832772347578181749115 ∷ 71319931595187990465848418289 ∷ 33598027215952466129818717875
    ∷ 27148729153725009704142896003 ∷ 21092873570196754029282574075 ∷ 6206196974270256414648804741
    ∷ 24516357371379383738617854219 ∷ 12711171760180782540208509665 ∷ 39758995418603690272246592900
    ∷ 8053207362242510670000109285 ∷ 61625610273776752188145123856 ∷ 4289070867268981415354740800
    ∷ 19714096927056191674280472985 ∷ 78518703861860425009114531836 ∷ 39497289886344618413556652559
    ∷ 12162964184237745837762516839 ∷ 9956788176239000154485257318 ∷ 8255847035137764419086391087
    ∷ 25290074657421463503499833526 ∷ 22261109175104390025563728669 ∷ 4144069319416241916890965381
    ∷ 15232788088282677541756987815 ∷ 23435705162141957151118585038 ∷ 35787490612958820397982148574
    ∷ 61098466627138510149447569920 ∷ 12356194545984532032908131651 ∷ 58872860871278122701188541228
    ∷ 66699668627990410591626597554 ∷ 11594029876347402420781130198 ∷ 53730851230326023446875708370
    ∷ 33415473336919018183113894668 ∷ 69157330289705463324965263068 ∷ 12683791907994809781032676660
    ∷ 48599572456291198923144962119 ∷ 4306352460382374354005573677 ∷ 63348932581446310670916543311
    ∷ 8347637553138955826326404025 ∷ 38647842228254730225085655604 ∷ 2967247540494770294583475815
    ∷ 73826652557253614617661636150 ∷ 6926808877198350133023289143 ∷ 10151228734308708183118546069
    ∷ 30280733904849922794394684292 ∷ 72605808605497134187896354950 ∷ 58542678793578174181291381515
    ∷ 56016312488011531224622248091 ∷ 15463355735920934496690342117 ∷ 75999312508210406403137859693
    ∷ 74654687778766809421049916905 ∷ 1476344036608623880335117031 ∷ 16079959431418869102588449802
    ∷ 69157331318080067370088380525 ∷ 46248359752490921085672513876 ∷ 56068265840197120984364079708
    ∷ 25666007316221289126951264983 ∷ 62441428443605046572496763350 ∷ 2765404190572853319378902820
    ∷ []
