-- ===== src/Png/Rows21.antt =====
-- Lines 3002 to 3151 of ututna/test_png.c, a row of twelve bytes as one number.
use Prim.Native.Nat.{ℕ}
use mathlib.Core.List.{List, [], ◌∷◌}

unfoldable pub rows_21 : List ℕ
rows_21 =
    41564799288061089269111196974 ∷ 8669814013076665252426450440 ∷ 72819746458145234225477215308
    ∷ 21616612556194430911124117333 ∷ 42805458559242538329860859388 ∷ 68495621343542801737433540058
    ∷ 10025257278781748563087217133 ∷ 56614824294778657540271952938 ∷ 22384107873907640086829280460
    ∷ 30150743091975474544426933509 ∷ 12729562129073737959073656257 ∷ 1744857933776977129621137689
    ∷ 10735317519446008295983022272 ∷ 61166712347688331620744678707 ∷ 60676888560737770443549682124
    ∷ 34105311358880924258525904918 ∷ 7409281137950117380154515617 ∷ 49324709396656685240825819393
    ∷ 1374478559336343208304410195 ∷ 15895410050050381282903352792 ∷ 7639972698829979355234069655
    ∷ 29882780458975763765113670057 ∷ 51062322705112730008656071276 ∷ 49924631242660713269995630892
    ∷ 61088304402215319228939022621 ∷ 69002471508076185509640066875 ∷ 77465297507695948951224959885
    ∷ 44260891160867130942111396476 ∷ 48891554843557334269494916568 ∷ 54255855061900886800366063503
    ∷ 38979022788840881801253457678 ∷ 8972292358482844452692992593 ∷ 223582540950487434745458688
    ∷ 71809886512244407826208409865 ∷ 34023644208357366184678364920 ∷ 23990967792263783485779515885
    ∷ 35392687233819802228390112352 ∷ 35089680671836011344036891462 ∷ 25245583299404832669728125058
    ∷ 1625551602867516415725243561 ∷ 36345201811900120137105802576 ∷ 17261730406266703957730453571
    ∷ 49280297387635888682769773341 ∷ 25303828925270646802227002429 ∷ 66691502887286532458264683295
    ∷ 76235013385848698837277126578 ∷ 67353245491571943245259964346 ∷ 77692848208027172413217467899
    ∷ 27720643943606505577232202653 ∷ 56768350872627778620085680227 ∷ 29632325964454290332030251267
    ∷ 23019588668444277439818250714 ∷ 23144801051822608062422237554 ∷ 47165218581615635417939471315
    ∷ 33016937832756844235163959226 ∷ 59451521756446222870918586302 ∷ 39929917844155480461058728972
    ∷ 71091024740055176189733332406 ∷ 14087671137107132517259722870 ∷ 22213864670448626367926932017
    ∷ 222919751892922480560506176 ∷ 29538808424897443131332057718 ∷ 1461799698750258431611007742
    ∷ 19991542100905895753006855133 ∷ 66642849246065090629838568277 ∷ 31788001229356122841545752757
    ∷ 76742136811842987221674332987 ∷ 49542149306450545441840262412 ∷ 20068987050801457377221845459
    ∷ 36436556657150259569776592520 ∷ 78643751660785432456672623876 ∷ 51355515745069833980082818463
    ∷ 64028253237060941923073381905 ∷ 65656952126515593504943906797 ∷ 45531675941490691178120934538
    ∷ 54286071393064762631185436337 ∷ 59561088140538667159912234921 ∷ 7880609630478622242087704262
    ∷ 11506701961046280619526509897 ∷ 68064584945284209764402226614 ∷ 23338072965773028788448467033
    ∷ 42420376441290955018706337511 ∷ 71120402837157733896943139339 ∷ 27142778290613539591665514169
    ∷ 47244313114581275988886705936 ∷ 52008831107916314842945811309 ∷ 41114560031340405125639726160
    ∷ 62647243201131941825388743561 ∷ 13974035474480002912644528490 ∷ 25957381413662081562143683555
    ∷ 16688929818408096553221276030 ∷ 70263349454241088658140094783 ∷ 22439357026497090759479309787
    ∷ 16097303998098999256061472277 ∷ 15700760032468952568011555185 ∷ 3050489325554408848039494994
    ∷ 9353431126263651772119935846 ∷ 78055375802842245547019967807 ∷ 36864871624926409030219272382
    ∷ 59139665246898580843784616145 ∷ 34481652881898880011493169857 ∷ 10561878071582947361234419715
    ∷ 22335048046544674465911788306 ∷ 62760696483398986739634434142 ∷ 2519447573887169863383792535
    ∷ 61801408659803330381319354050 ∷ 46600001949064093831716167186 ∷ 3851911117505461437631628862
    ∷ 34749058158790367387184323643 ∷ 40570859995386241874167943189 ∷ 28834936964953248430585790010
    ∷ 40537549921832827709465326189 ∷ 67889532835807644370928861323 ∷ 50501110866274461870410851718
    ∷ 67666622598210307923992322467 ∷ 40124999375760838689932198948 ∷ 43667307299673905840081733780
    ∷ 60204429169200056574530510353 ∷ 33599603731380243249429034076 ∷ 18736826302077282823989789092
    ∷ 26695321727563910828429387359 ∷ 40299044451705411439015282806 ∷ 17947109154930992467411826924
    ∷ 255910146146474257147879538 ∷ 38543641521653402824731114975 ∷ 39926413854196850731880359776
    ∷ 52772121414945042152663147359 ∷ 61299284392116632321283919420 ∷ 42484170642096537825016546654
    ∷ 15631189057447782252980053638 ∷ 5416014841685319156158253336 ∷ 43077851809799724588153430535
    ∷ 62380176468974303033023752537 ∷ 67608001182569387174490935771 ∷ 13902127604541998338645373916
    ∷ 29409538533181907455301498244 ∷ 26782843623841789802730425388 ∷ 7326992851445590764794161
    ∷ 21764754308604125159023060500 ∷ 68290271184425753990559665841 ∷ 56456249921483692149229626630
    ∷ 40230924139108824454576368386 ∷ 30678712174828152173603635807 ∷ 68566830307312268560538402819
    ∷ 42705555528719270796184583122 ∷ 422212005715091992501118105 ∷ 74795234678469112391373390041
    ∷ 3285789211782475267327410519 ∷ 40961660149628824168268439115 ∷ 60552318989253168811101364164
    ∷ []
