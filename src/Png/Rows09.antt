-- ===== src/Png/Rows09.antt =====
-- Lines 1202 to 1351 of ututna/test_png.c, a row of twelve bytes as one number.
use Prim.Native.Nat.{ℕ}
use mathlib.Core.List.{List, [], ◌∷◌}

unfoldable pub rows_09 : List ℕ
rows_09 =
    54025009512569888783120028760 ∷ 24644705881589068782036282002 ∷ 1603028877548826140299179249
    ∷ 44475011429295537484536420286 ∷ 31435751370515814298067630714 ∷ 44865457869669233989557735302
    ∷ 66438212577147883947055076099 ∷ 56310842759907885897234837435 ∷ 46231314476060206693082103039
    ∷ 58561308459884591109926521021 ∷ 3717813757249439783389153131 ∷ 54478383229898037156009040047
    ∷ 14693088048615439695927192707 ∷ 27890354720859338784676370890 ∷ 14027635612788175759281440663
    ∷ 12389864827666061256916823457 ∷ 11706401737562525766321185941 ∷ 5142014658193508243383433611
    ∷ 28562229668717785253265265700 ∷ 31547590644729040323359658217 ∷ 9815989679530611698497841595
    ∷ 16902170016067260011227077950 ∷ 55706406093869580298318532974 ∷ 32266131141921271441377486735
    ∷ 15043731760894539491007834150 ∷ 49700253992505310183232060569 ∷ 29556492748230782617762948138
    ∷ 4467695561463617759361025284 ∷ 35580222547837602029598612582 ∷ 25137739374913308351998441200
    ∷ 1704313695951523990327492234 ∷ 6586594788772560426260225927 ∷ 37947810695265919219986702557
    ∷ 56104443688595444250475267244 ∷ 35903305975623238620641649730 ∷ 38345860605948170731118367664
    ∷ 20728006652749817151141834273 ∷ 41446246824687279934000051910 ∷ 78807265399289088575357554166
    ∷ 12737435175875898315125282222 ∷ 66000513557415954766701520713 ∷ 11179778489935036217581734114
    ∷ 67724504611784821221663668626 ∷ 34583189421561400604426632274 ∷ 50308240797959640366125907709
    ∷ 52531242013818164768624819645 ∷ 37256744600146106480531007566 ∷ 2777029137978999459503461862
    ∷ 2616358707851899721198195269 ∷ 63049045261096991513664834484 ∷ 27245275333038758137674349243
    ∷ 33812250868769131294264303016 ∷ 2351810430270671717544349599 ∷ 31559597597441770902132629188
    ∷ 39754208086596220827517366744 ∷ 921195477397762890067807018 ∷ 9261872646498653711973014316
    ∷ 691213815878082900298303810 ∷ 39004894869492357721490608993 ∷ 24214311652040818866228490014
    ∷ 13112325027716986394938940638 ∷ 300785369286687349789236138 ∷ 23355194366581497056076835668
    ∷ 22353589374587915496030012980 ∷ 40929011620302668618962529495 ∷ 61403641326590048714658750658
    ∷ 52244160796555988336846159017 ∷ 39201933683792292525942439644 ∷ 2421317425672454399651384211
    ∷ 1139440986621941093613194725 ∷ 66280412013692217528929823207 ∷ 56936341104118693425917236900
    ∷ 31407435415908751045333674274 ∷ 24432387009288831726722128477 ∷ 3214711381840446184477459097
    ∷ 9570258311772832417264537934 ∷ 57665476709542954068537384950 ∷ 78154371815063159833476294094
    ∷ 73152960800259377474418250466 ∷ 77968771212653622159130465125 ∷ 78025278441877059323242344885
    ∷ 50967494775264276351110305814 ∷ 1947329489022662051838965185 ∷ 43973207348248125198204249138
    ∷ 38167180995217055111136272242 ∷ 12185654758918929154942806836 ∷ 35446497639808425034966264090
    ∷ 54135804689626765730086886602 ∷ 31665508159336467377548971993 ∷ 49488050664024127531984143832
    ∷ 47011440733538542566475373462 ∷ 47791542861903051601617686652 ∷ 14468054920758783418584440015
    ∷ 25873466389291008377323452941 ∷ 12331008301451593453984860513 ∷ 18601542434524397878975239087
    ∷ 65732774565942766083684260496 ∷ 63203551627148378959709819854 ∷ 15031321043732123856029944304
    ∷ 61769305343407778003849018518 ∷ 34504090155194407930497437523 ∷ 74763146308978483844852415258
    ∷ 69000571232931418738141435173 ∷ 45180985909718551669522459417 ∷ 72030787002583204627075314212
    ∷ 76296653324833925891869869312 ∷ 75398487084573488875822714926 ∷ 33626633351657996434035165881
    ∷ 33945336910255449820855918994 ∷ 46816994084202526280831220896 ∷ 48805785950767076134764712807
    ∷ 38201601619491471629124208534 ∷ 7650651652591916212613475750 ∷ 11679869692543986658002900157
    ∷ 38751273184483852197375117137 ∷ 7432921592634220736742089845 ∷ 15765672561816240075182062011
    ∷ 43733033455145086911846707105 ∷ 42074679538488524561142488212 ∷ 7803073213714080026320320955
    ∷ 77895886052547504147991012152 ∷ 62931325216242454173237893488 ∷ 72110866425082524291800929221
    ∷ 12136142074197297679092616498 ∷ 49606011981094023417205697224 ∷ 64218106425415488005252377963
    ∷ 68307682124779434092586319947 ∷ 41278762059280123040041015366 ∷ 65337950744734944875351514856
    ∷ 43070261664261921482138873500 ∷ 67904930105790182636777433360 ∷ 66599487741920037816856418688
    ∷ 57379792982691011498786593924 ∷ 11685159954755803113392158562 ∷ 10971493191718378436815841288
    ∷ 4040791606622607458328336123 ∷ 51440252734434577326221370069 ∷ 8102283554484981213408386003
    ∷ 47241986870760440854811680975 ∷ 22518822502786081157441532186 ∷ 54529262096678509218933862828
    ∷ 4132004115658968700405429560 ∷ 28916455709164030072489132771 ∷ 47290580142025071284104113520
    ∷ 38595678926395078657978852263 ∷ 2716705741114761307863523599 ∷ 34281001513383615482879013789
    ∷ 26745216220061540692999025825 ∷ 47248564061646462829618422658 ∷ 2417491328707539845981560338
    ∷ []
