-- ===== src/Png/Rows27.antt =====
-- Lines 3902 to 4051 of ututna/test_png.c, a row of twelve bytes as one number.
use Prim.Native.Nat.{ℕ}
use mathlib.Core.List.{List, [], ◌∷◌}

unfoldable pub rows_27 : List ℕ
rows_27 =
    22476252964433947665446413929 ∷ 53253885523544395963680340221 ∷ 49641043182880831161548851306
    ∷ 61199014271252476914427240781 ∷ 12819028974495497260286012100 ∷ 5564595880065982570770032733
    ∷ 37310503061611161516484277055 ∷ 53536826016940236335791481449 ∷ 53259275603168629887005221366
    ∷ 47995520079439432578780075279 ∷ 4873028841210016713193796783 ∷ 64086678464597574126625353646
    ∷ 49733125514118889632437687364 ∷ 22403073710407509413478404029 ∷ 36629375209043014317640622759
    ∷ 66764542283175360620102134257 ∷ 2032261885380376773509819102 ∷ 76971960084367728618753532918
    ∷ 50898302156080853200986547826 ∷ 38123723177546565726288119084 ∷ 50106985810709852565666614494
    ∷ 42923905922063332758763077493 ∷ 73426324253330018864980782581 ∷ 35431787745806642581846251548
    ∷ 13318087033132336029742774509 ∷ 50658826210865637768006591477 ∷ 58961101836266186867292246226
    ∷ 64624641004575658092431877077 ∷ 66177978954136175942052431825 ∷ 46739417491048975185063287783
    ∷ 4787860546247290990045801292 ∷ 48228540214176683602460797986 ∷ 41002053692477223265827642349
    ∷ 63365741809049994283311343229 ∷ 2826037325072010955874625893 ∷ 7468689348158546675531959060
    ∷ 39962546540570875601599748734 ∷ 70710035409266683104591334097 ∷ 65533212771427390475310613960
    ∷ 42628681292364040444869878148 ∷ 5031587658426682630027350082 ∷ 2516398282899777142493677601
    ∷ 40871675935708278300694643728 ∷ 20435840329001351790298415624 ∷ 10372660308264323649578143631
    ∷ 41929408569257477607719477655 ∷ 46289249320476935926326275245 ∷ 53750871027514712003107764796
    ∷ 33373201633541382591923108219 ∷ 76341880887264641681588001122 ∷ 33866155722876995481510012186
    ∷ 10372964697728580140314681279 ∷ 39108238839115474810885877341 ∷ 8160730164251977716622090938
    ∷ 49011375547179994360944759554 ∷ 20707416244693744979484176275 ∷ 46915046112763859551784323089
    ∷ 40001318534220569572955367043 ∷ 40624131672711327238793717730 ∷ 70198457616931751089602895309
    ∷ 28989704546887095577794886587 ∷ 18447836632238435954691634163 ∷ 44332494101067613928115994640
    ∷ 4971862263130518090018442163 ∷ 56303759737093945703221488083 ∷ 56767349425375209855769114418
    ∷ 77928733803769375807239574868 ∷ 26278316240323839584977949459 ∷ 5908131892207941747452832468
    ∷ 12523826731475429162626851194 ∷ 37905522989333845626962937140 ∷ 60263072087901103789597042599
    ∷ 71694522338252705167366488838 ∷ 3956562927386583317948236551 ∷ 4677611817944028390991204495
    ∷ 61649404481565497420415620565 ∷ 66065297257651870834641510736 ∷ 13178927002298900430373307508
    ∷ 10505276169223989106298064962 ∷ 45363218699087820446737712994 ∷ 22327135502235465723673391009
    ∷ 42916468355337654728582013342 ∷ 30578088977696402113455833337 ∷ 75484370602055435935695722289
    ∷ 38678310783973724497999753693 ∷ 37098332610859562301068297798 ∷ 19461349142117369794473767
    ∷ 12234307913851882387453395779 ∷ 21038265313904041139370580441 ∷ 31020559701489362648659304912
    ∷ 64470433598400651934560427293 ∷ 9017543622529863386396688451 ∷ 41798522079736616343715676385
    ∷ 60513591986166858628949028039 ∷ 60896030289981870111484900725 ∷ 36359605336623320282965452623
    ∷ 7367505776089520746542757237 ∷ 5281877297241042886988708956 ∷ 14394295717787856322001528442
    ∷ 37982927432642174486769292069 ∷ 5659526972717528448080147797 ∷ 16850425267082068033189478132
    ∷ 76120040223061775999036532300 ∷ 464594000092498271704068659 ∷ 15845632515267246643893030092
    ∷ 13682878433423255372531750751 ∷ 39582432919883964638717559034 ∷ 25154457908994759942060346224
    ∷ 77355412582528704996904412635 ∷ 27824403442317228193566197071 ∷ 47723901173431947224746336446
    ∷ 59032715349199202913964097880 ∷ 13625202783396244899551896928 ∷ 25167200446695120849202086671
    ∷ 25477294249902061000523833735 ∷ 32846585856437567173656455722 ∷ 11495851012989467589052706732
    ∷ 53411001064453234424930931860 ∷ 26109610346135505523775464956 ∷ 77044175773497167581897687037
    ∷ 74120466279870882738521823320 ∷ 15169103391561013093302122850 ∷ 54885440417168076798610033365
    ∷ 49590279661187898875062147738 ∷ 57478647884478076193318371067 ∷ 78604315975209231194011015744
    ∷ 71908159381537810596088376012 ∷ 64002981452938813633855539755 ∷ 54271973651437363146083311519
    ∷ 69272450976790188153897335571 ∷ 60585028662183897317787240481 ∷ 11211852428015155379768883834
    ∷ 37759591072950200425541281796 ∷ 39722522855352350268871133384 ∷ 62148227277199082203831151705
    ∷ 55093168613548557929007658974 ∷ 774774473646889255959003134 ∷ 77816110885157590604208371200
    ∷ 59627043846159525063949604052 ∷ 77980472922187423193627623496 ∷ 11319001105253252994695465235
    ∷ 55739414959611610852946360445 ∷ 77589587462791292592494861753 ∷ 35754693398060639805797587546
    ∷ 28041291413305896846792865591 ∷ 66797788032861626542034259997 ∷ 9030032994737008930532155457
    ∷ 26098688754151913188839393284 ∷ 728563508818903741495806751 ∷ 22059605441423804592444159542
    ∷ []
