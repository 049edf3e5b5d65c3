-- ===== src/Png/Rows15.antt =====
-- Lines 2102 to 2251 of ututna/test_png.c, a row of twelve bytes as one number.
use Prim.Native.Nat.{ℕ}
use mathlib.Core.List.{List, [], ◌∷◌}

unfoldable pub rows_15 : List ℕ
rows_15 =
    23841263122425758183663070680 ∷ 42667681533534687987069009867 ∷ 77544293311923243523287060641
    ∷ 15437860433871307743051828903 ∷ 31230829495719473005709567120 ∷ 55807791445367785044314694020
    ∷ 12885825124401324707756920607 ∷ 2538404293654012696431795359 ∷ 42827104253241571279311606663
    ∷ 5203694977688470758232664080 ∷ 53964882887106385200957400776 ∷ 21516958784480161971476676649
    ∷ 33429764762995293931239702736 ∷ 33645085424062147032368207150 ∷ 51370506150959480379956121866
    ∷ 29029136936151157180712235989 ∷ 53193465504785573869611973954 ∷ 35995707295599214042783122333
    ∷ 57784359997024799520464287815 ∷ 51505703756041568879435757076 ∷ 22284168746638653465347836434
    ∷ 64388130979345923112175020077 ∷ 63006877997085224613113528900 ∷ 20070747439567937730314828947
    ∷ 873689393843466425349362135 ∷ 52946351648797937061948328863 ∷ 24185547190040955027028256390
    ∷ 76626318737845896908462718574 ∷ 18525111047408508881160620766 ∷ 20322772725427449533448917429
    ∷ 60412485696485253686730581523 ∷ 54681068425645236432342052096 ∷ 39852514736726341510576947973
    ∷ 20984589270884178755799308251 ∷ 27342944892655523535446313837 ∷ 56230600261695205770990812701
    ∷ 32482183794866208203139245895 ∷ 63892975700622904273409122749 ∷ 16182086245524971279367283531
    ∷ 28614220649281415218106378528 ∷ 11535920072000529108076861889 ∷ 27249343819532346547408706747
    ∷ 29584655237493640300662769612 ∷ 54357097363243461115092765512 ∷ 12785784428882292337359571976
    ∷ 48213255084612993256449244846 ∷ 54419859895090834902801633518 ∷ 25944059387317963358148845932
    ∷ 60674456510496324208461761762 ∷ 59282639525443560141931231419 ∷ 18289463261193128043622694955
    ∷ 76351796835630992714346018705 ∷ 11581661756458360466500302989 ∷ 21895376887533788233120547188
    ∷ 4097235654175521265321616172 ∷ 8528045407953500041964504386 ∷ 35410138629312685204481664311
    ∷ 50301462132655678324986113029 ∷ 61872650886644539762359237947 ∷ 62571996420805198379239874289
    ∷ 26864406238583935292517837574 ∷ 3469185086536593616921983189 ∷ 35631655194192961972935639720
    ∷ 14986184625121149978335483087 ∷ 18180915083734091640418441632 ∷ 11239487989291662700070872208
    ∷ 37980923446178946765085959674 ∷ 21945618500529353728965412993 ∷ 62227507129559491090669675663
    ∷ 24960317121656923110241341994 ∷ 1702668193070633889256039876 ∷ 75560625152675424978721514108
    ∷ 77991067853336314224316840891 ∷ 71474234150103964278994618543 ∷ 10561667872195327016894112868
    ∷ 69685253415227295665864956563 ∷ 11306095730210359392102395232 ∷ 65364574427945223037672820005
    ∷ 261703081671318441298491165 ∷ 40438777519847062793614232931 ∷ 67306528461840823895664977198
    ∷ 2364510972350383533805053314 ∷ 75511960898994549656146864926 ∷ 52667251702895375363014444380
    ∷ 60384248969739957447120664484 ∷ 3978470955865244830066282256 ∷ 51175341891608735539666555200
    ∷ 16078544569906100523563257300 ∷ 32423609830033524629043443006 ∷ 50433892749982531811190313986
    ∷ 62576664227265026222222680928 ∷ 15721134878380148608312603620 ∷ 38040049558480722974684146149
    ∷ 73879875101780577144922584066 ∷ 50372100122579649890142274081 ∷ 52877116931916857178352788744
    ∷ 77884708167366955075434726783 ∷ 13637924387596707665686444900 ∷ 3650583473071997172434076268
    ∷ 450359550177575391223296891 ∷ 35332971875009690424555978858 ∷ 39593288854451992796727440159
    ∷ 45560852714465445687419701838 ∷ 68920181503883473377184712426 ∷ 43953491256138188344289798228
    ∷ 8664070828267142684598632771 ∷ 26561489415529535142667834891 ∷ 7941508706330371204833649369
    ∷ 75191444472742965464749349338 ∷ 74630262592444145585286284309 ∷ 41020558232607957046078579118
    ∷ 63135424581524171302484611237 ∷ 52213887071649640581944470579 ∷ 38737853338563923884241425454
    ∷ 70260143510465682550767418758 ∷ 71446800156940905382388320043 ∷ 77905802669132444369012582762
    ∷ 26318098473224811059840621589 ∷ 43641883289644002149811786700 ∷ 41406748303476316077730621950
    ∷ 38008467133358610236535388997 ∷ 1577397965342656251273482242 ∷ 53586951328624519195917106789
    ∷ 76722297484136544930989778791 ∷ 39957579272525291280320522164 ∷ 19528966451543346069260852595
    ∷ 49347932861501861696224189086 ∷ 71726693752825692598623185983 ∷ 14672765597513686575480211201
    ∷ 67082072065174076908830738777 ∷ 57503807204895552586116279692 ∷ 64572824198654821299232151570
    ∷ 61997205956830617236087150651 ∷ 51993622272278909555441337577 ∷ 48749361913401789121886203710
    ∷ 53550959151190379181108461051 ∷ 9972875036638210592606528795 ∷ 42951510831994366843522672977
    ∷ 69846845208970191477685635645 ∷ 28833269352336463127781373793 ∷ 25108695699953621149100867888
    ∷ 26629566294812081229697940179 ∷ 74065962460405180466748349440 ∷ 39891320209881220032554065270
    ∷ 48272363231285660997650260794 ∷ 39267548598821777616843275189 ∷ 17801067442564629021182030882
    ∷ 46883674609022313726074193976 ∷ 53274057934746616797193730002 ∷ 54678584964036798839027831265
    ∷ []
