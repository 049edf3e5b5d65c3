-- ===== src/Png/Rows28.antt =====
-- Lines 4052 to 4201 of ututna/test_png.c, a row of twelve bytes as one number.
use Prim.Native.Nat.{ℕ}
use mathlib.Core.List.{List, [], ◌∷◌}

unfoldable pub rows_28 : List ℕ
rows_28 =
    29319437760714474139172296021 ∷ 26307136807907059169252201686 ∷ 66460068663320239150366688084
    ∷ 13062694755953024965276460517 ∷ 70936072873815727697828122858 ∷ 50380260593547436611455522430
    ∷ 51042075268245256542264230114 ∷ 70528495253491873987053682816 ∷ 9188859346539018602923388856
    ∷ 44733327419588630450593484187 ∷ 8078168503179980841810927863 ∷ 4392584342129668334936897680
    ∷ 48661036279477889397895262962 ∷ 619192841264154472981035829 ∷ 16495446671404191585318993661
    ∷ 33463887531749327419706294721 ∷ 30283225316920176141019054560 ∷ 44333719698722506909289570531
    ∷ 61449219577054812641282636212 ∷ 23883789770814968197278062808 ∷ 67047808205138097326968141044
    ∷ 75619138183312121030844201658 ∷ 57570280159961521523345693339 ∷ 48182190704942576633023073534
    ∷ 49499985731079435847631073841 ∷ 37520365715675155740566732677 ∷ 5245428406320333367271256296
    ∷ 64413708008682730111010253996 ∷ 53459591029608847023296846791 ∷ 70322285724102798141207544865
    ∷ 65680887420151479117025861502 ∷ 77106500880289481011509592323 ∷ 271927397057271695509999053
    ∷ 63445788073499555271639830638 ∷ 33060422995706502388862565290 ∷ 54372416509135801315875729592
    ∷ 57052752866434878702050101487 ∷ 68935186610754355234273656051 ∷ 23886885853786165933191186806
    ∷ 46642422772624970794274646495 ∷ 59420836312765598416113120854 ∷ 49283662850964510479856602911
    ∷ 4642431596582524739194198272 ∷ 78901221265827574754421949819 ∷ 50881531032824142448159497022
    ∷ 33061895333035595591241674450 ∷ 6099884106772971303996739830 ∷ 14475290570162911202957518311
    ∷ 71698715649137704176062212007 ∷ 12214272269863572110773725676 ∷ 76084198173628874351921823500
    ∷ 10508799320106475992644641508 ∷ 70567419262576808041248974412 ∷ 262018017674224240463363795
    ∷ 47107130861508141859406348295 ∷ 46511325384116081251292214376 ∷ 165058672445913410213249176
    ∷ 47847670259976725549444858221 ∷ 48734419696015928960529054201 ∷ 64879758960862335151815952829
    ∷ 58721589700223247690061235399 ∷ 61848441073089078464567404394 ∷ 76429840696587198956127509193
    ∷ 13742883076336598231661095710 ∷ 70235530118724562122244450017 ∷ 74578013583215379846737258937
    ∷ 34622720489842859812009672680 ∷ 64725365539531494753934530560 ∷ 2494086416981053680924956309
    ∷ 76376813780578347003372084026 ∷ 77643898860881131976405747847 ∷ 40153739038880307525952357064
    ∷ 54899472766994170062991839720 ∷ 70718500474519900029527208806 ∷ 45995571698452578487793468036
    ∷ 2907945428288467229619642776 ∷ 15284534473333032083935483411 ∷ 30543776007376161578207998177
    ∷ 38452151817625266050407344168 ∷ 13981895565888578591826696649 ∷ 45541498964194570217314545365
    ∷ 65867835026061546624737934778 ∷ 11853029202751146497380362489 ∷ 30531788063212930109823475540
    ∷ 26040826639271151568622643175 ∷ 66798999935646785923283263804 ∷ 9341554716589494724095220093
    ∷ 77978687807798749010988648464 ∷ 43257303759650376334310936867 ∷ 25787992630108241595545154276
    ∷ 22683431902124757534790406848 ∷ 3365827518669163751545208315 ∷ 76377502024170564540449739014
    ∷ 1864713921525521717437436059 ∷ 71071137001419920643850507349 ∷ 21984474997511136797470083355
    ∷ 34580652252231256047527786203 ∷ 27962883540656159457205852569 ∷ 32625788368117063710194792933
    ∷ 7313170825574225962731419615 ∷ 11856686310817329692553744236 ∷ 57126079329883879663987864375
    ∷ 17311665435916500310064689942 ∷ 6835892607999294261397704270 ∷ 21748910416685401799907032732
    ∷ 48779237874888702834909306073 ∷ 67421612797001457093048194720 ∷ 20274933320736941826970306436
    ∷ 44841209967301757725672962682 ∷ 57770201771125799397850170402 ∷ 69641790175099898555209674652
    ∷ 25800128879125121207846928385 ∷ 1107821177284631059019303527 ∷ 35182597072933287816927699142
    ∷ 43670733196048384197778263100 ∷ 40745133713633919183961680151 ∷ 14347569409241155131013098712
    ∷ 54651411737661501065090763659 ∷ 71460694823263486207063521448 ∷ 9637275847684685858029053886
    ∷ 37596967344677961269823465682 ∷ 5454059207799039796663353496 ∷ 15285083638864184166500968180
    ∷ 65185508316210795403066503791 ∷ 21611667025681258840477192868 ∷ 22723841991364673537715618434
    ∷ 52675397315661958529477680267 ∷ 59342839228931728995743014333 ∷ 50022486045666694313500758176
    ∷ 72441812387456473903643598494 ∷ 14342189738278935044871008760 ∷ 31757548411702571049522505049
    ∷ 4271853624510740628891983454 ∷ 49087964449610647640243585056 ∷ 69550135124952434427729971850
    ∷ 3198380303181070990131116145 ∷ 70324180716541333087726825183 ∷ 59012452581753494369986132923
    ∷ 18288595674630474509612320435 ∷ 50749966329310284094745807674 ∷ 5585238587986668187890051369
    ∷ 15130282929605598804012393997 ∷ 17255464863745329576744027911 ∷ 38263227537077013552957622305
    ∷ 16777727545113255398452698401 ∷ 65665441824781580486575001103 ∷ 4758022641352575343670408244
    ∷ 75773871169901671433415395261 ∷ 58722255096781052957221563241 ∷ 23626449747687974232177547103
    ∷ []
