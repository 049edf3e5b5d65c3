-- ===== src/Png/Rows23.antt =====
-- Lines 3302 to 3451 of ututna/test_png.c, a row of twelve bytes as one number.
use Prim.Native.Nat.{ℕ}
use mathlib.Core.List.{List, [], ◌∷◌}

unfoldable pub rows_23 : List ℕ
rows_23 =
    33437284107682207391652848896 ∷ 52215852759176861798747245009 ∷ 24662088491031065311809182233
    ∷ 34255972708440351439995388453 ∷ 30687796948163888658199658754 ∷ 39732487889694514704054343901
    ∷ 60957776135095463155900015161 ∷ 70514933575308160337927277561 ∷ 15537530205415256324862173558
    ∷ 2477872632687680666773036705 ∷ 16571071471839688323761697942 ∷ 29005714660960827491270787168
    ∷ 6403023896157188694966290408 ∷ 53901311371690522457801858141 ∷ 61362221241067639788943491230
    ∷ 23133746562640885616001867993 ∷ 28453409862472746340222631072 ∷ 42976841309278086661885240280
    ∷ 7431572298264733878163396463 ∷ 47690324511326521360442373104 ∷ 75073240992889450480318232776
    ∷ 35751592051563063667855914598 ∷ 7870693182553121858784223233 ∷ 59488910461804749697568281476
    ∷ 155682767214238728647476748 ∷ 8398843022008375686970273437 ∷ 59846584685932217765470405248
    ∷ 54851515685380524457241038136 ∷ 74877344719120640358352126057 ∷ 42413686373197293570485369062
    ∷ 61849097895273531620283777164 ∷ 46230357999077310908574514406 ∷ 64729433355415675632636482436
    ∷ 51857944212090323143429940204 ∷ 71268818708731655698255531673 ∷ 59556056637914030476027171647
    ∷ 53987120920069310877101965782 ∷ 1238642529565659522467155847 ∷ 54878809799053429445660593487
    ∷ 16661418022754258146767739599 ∷ 14620194293347626891007027464 ∷ 39867928516078167970744578758
    ∷ 47665579166874605098420266976 ∷ 47538956694862250750395568355 ∷ 1828479273566160135415825041
    ∷ 2476720885721744199481710894 ∷ 67701471524081851015833903733 ∷ 32150805371883968910217443287
    ∷ 74668713201911384840071706730 ∷ 7847606843209083120232693744 ∷ 5060850116535492653576442812
    ∷ 76796696220127083839387676101 ∷ 20751496528109087383706977497 ∷ 31446999635850184248329997711
    ∷ 69834997685393100805392105699 ∷ 12495849400262050511194036228 ∷ 17712865276800204207705481
    ∷ 11510402031089758743930932829 ∷ 16022569460158215248730846768 ∷ 37771782210236191611528800079
    ∷ 16525438069942728375749593091 ∷ 26526292987911023875056734862 ∷ 44504329597915137832505499005
    ∷ 51235115022628835823549747937 ∷ 7214583354226996060145448615 ∷ 37334695851299942487028777718
    ∷ 5665377920868617383487921142 ∷ 70228388041065844035501318145 ∷ 59489454981511017307757620696
    ∷ 32231178365665375885693453661 ∷ 43832213472993726286088378407 ∷ 11790140674379502157081476080
    ∷ 56207382390453658190729994484 ∷ 1028974084330548852789022401 ∷ 47667318686941491159530869254
    ∷ 42632268907147050634285752278 ∷ 64203589961162376519711313720 ∷ 66345857261325087897153387537
    ∷ 32012055392451216926682555608 ∷ 68015366515067926008546124536 ∷ 7474959384257707050345651064
    ∷ 69383192333022511272477428833 ∷ 2179696919082787729049117673 ∷ 48183538281421035636382775452
    ∷ 30221356952359060577341027680 ∷ 76212103628663616662636031114 ∷ 54858192622385951068184030789
    ∷ 68158650281950714430511677445 ∷ 119837451852488876175656359 ∷ 23947281512178528007147865057
    ∷ 6203725574995091078201168162 ∷ 14895406740032490042723214948 ∷ 8397689490450867298727620590
    ∷ 21493554020878613364382665909 ∷ 39714603634453379954752866225 ∷ 49987537254502621901652939796
    ∷ 32818657508876229730183991120 ∷ 64237682539724234720338258227 ∷ 23318981094223630097799716882
    ∷ 12470769427480350353317178417 ∷ 10580680220444468028951860705 ∷ 34666831383239196055081362905
    ∷ 7586080759446876094032124315 ∷ 34959747180063670709829656876 ∷ 21920550707427109572153731425
    ∷ 56482238380046789873826817926 ∷ 33176781890921060599038326413 ∷ 69803873193538138534546059673
    ∷ 29764690340909553698814429212 ∷ 20203757284681165265708586133 ∷ 6859661374097982568922484436
    ∷ 74566752778112402946370470849 ∷ 29768702940816577959009192966 ∷ 40776313204140665577249189912
    ∷ 3721695869935757015663231328 ∷ 14884351479667548526134167171 ∷ 59846890891382163021535123468
    ∷ 2016192532381744887259815984 ∷ 7442178110204218200237179841 ∷ 29768702940816577959009192966
    ∷ 40776313204140665577250223290 ∷ 38376141808163221601257533464 ∷ 3721695869935757015663231328
    ∷ 14884351479667548526134167171 ∷ 59846890891382163021535123468 ∷ 2016192532381744887259815984
    ∷ 7442178110204218200237179841 ∷ 29768702940816577959009225921 ∷ 61581621832642894020157599538
    ∷ 8673500237461187764833284771 ∷ 29633132348650288457378056159 ∷ 38468216251611184746657915471
    ∷ 16189991728745122814511283665 ∷ 18569032359953848191033931606 ∷ 52984798348435563937674776031
    ∷ 57537102772967527650021087357 ∷ 59590215435010644662275264575 ∷ 78413493056883801398130148351
    ∷ 75725545427421968487837097073 ∷ 62994889470679421758090034046 ∷ 54942494443815278927473665946
    ∷ 47031674418813921073196293612 ∷ 56248252026624925792428106238 ∷ 78395965688415674186182593323
    ∷ 19568992348266553997591508783 ∷ 38681431269737397550951910289 ∷ 64827159478826600862827612143
    ∷ 78835371989749189926216785652 ∷ 27234655959687391610383236723 ∷ 78885917112797988512440773562
    ∷ []
