-- ===== src/Png/Rows02.antt =====
-- Lines 152 to 301 of ututna/test_png.c, a row of twelve bytes as one number.
use Prim.Native.Nat.{ℕ}
use mathlib.Core.List.{List, [], ◌∷◌}

unfoldable pub rows_02 : List ℕ
rows_02 =
    66219543384934175116986564382 ∷ 19379022962183689702386913108 ∷ 78281956206092086498136678143
    ∷ 2125830326241958629220990962 ∷ 17523977745409458800912065176 ∷ 37062542655235819105652522287
    ∷ 36511599670312596784651076189 ∷ 33880077127818844145866604109 ∷ 61857646578774017528596910265
    ∷ 29143634723267898020049427363 ∷ 62885226370917796405127663575 ∷ 17762848582071642065893034711
    ∷ 54144462302148163146787678012 ∷ 36685458356012072544473120421 ∷ 62727640185682801886438873335
    ∷ 46697359853944478095683378608 ∷ 71844223004395988568190364778 ∷ 78932038485076526683729782343
    ∷ 53251670297498089390666473 ∷ 10096650950093655612760291848 ∷ 58463092113718565213025424757
    ∷ 20509754903279905999737894602 ∷ 76673179759631157717788490748 ∷ 70349529709776042192501122814
    ∷ 3113728382990847358864985660 ∷ 77603739539799256828701949568 ∷ 14700150798120245838423018226
    ∷ 66280969981896331098536738802 ∷ 48739978584539203198689143143 ∷ 33418003701853676094564871480
    ∷ 56264578160234609562907769852 ∷ 71360458351309964717918467694 ∷ 75269911680962436938653995252
    ∷ 40177386589891409565875174913 ∷ 63912303055191640475400200107 ∷ 51683264775042817388070309778
    ∷ 344737288526326840009436636 ∷ 37946648972713283596877688983 ∷ 56627111458053596392592009937
    ∷ 77925267101833033933810245198 ∷ 34435868742628758003033061632 ∷ 26947765352546910500031531755
    ∷ 55001650344659137441184926408 ∷ 20363666591262612129543592230 ∷ 54904060549776650909991840099
    ∷ 67620272484234302908491206964 ∷ 59794883582554695089421135781 ∷ 13833313753884351710184111468
    ∷ 53708379835296663415608165179 ∷ 24740553236797051265190130688 ∷ 44372268792086351106848501636
    ∷ 12998572258105058916279203613 ∷ 42637249370429024392226745586 ∷ 27510696793091687607862029433
    ∷ 36458011816324023786871826849 ∷ 52968438541447155074709903839 ∷ 2783706832357115776554915913
    ∷ 5931540996417482576697697054 ∷ 61049254711842408544736024146 ∷ 65771851172028066844486088901
    ∷ 49277995498932084205138997657 ∷ 23517180396785705355441016405 ∷ 102137002265756909431501250
    ∷ 31938468803385707017735357754 ∷ 59820015353357785466831717324 ∷ 30129060966282772277232696610
    ∷ 26816130709013608936772102039 ∷ 21322890169574090519911867136 ∷ 18565251613985159032946204587
    ∷ 76029333208956811258854055349 ∷ 60672810731025094014336317769 ∷ 20475550721686745865386494607
    ∷ 48551837042297404310586090296 ∷ 70810751927954214110540261151 ∷ 18531331898423201797394828027
    ∷ 34626940535425614583678891934 ∷ 70049535638463566696386190535 ∷ 45403830775727162764701709876
    ∷ 12177681937033393652150591783 ∷ 67356528775276671086500842422 ∷ 11090276941339473698359539237
    ∷ 52575694163268755725168903571 ∷ 70770271277478008880778546757 ∷ 13450017196341909178449802610
    ∷ 39667128766574884429634199233 ∷ 38200430998890069492716520255 ∷ 78991360614837904195627034712
    ∷ 59664594086255474846864346943 ∷ 64140740337721200016808635163 ∷ 71514558656516623318989269226
    ∷ 41510293108428607720899306861 ∷ 45333050569449810895553319841 ∷ 13553436656760467727179900570
    ∷ 72125823935895644880695404497 ∷ 20755788794658679351795274878 ∷ 22923823649723659023529382279
    ∷ 71428153446315356130230827833 ∷ 38855958417255000742232926015 ∷ 26489622182119458872863907413
    ∷ 37447591623445753142330819949 ∷ 39268800650460160088146251145 ∷ 44060146494782511820232683967
    ∷ 45282909105024505251111044652 ∷ 33628544408978895223253753026 ∷ 20033417604805438580566312193
    ∷ 39995461409565714835393133613 ∷ 70422768497247216007913649509 ∷ 56471207213058418460673721908
    ∷ 31791463265696884762157934975 ∷ 54062788283632395761550689551 ∷ 48864639505375552005830215356
    ∷ 76469460201670207618803193649 ∷ 52613246368656719989163355710 ∷ 43338569385338059178614163641
    ∷ 72291037486029121966945432212 ∷ 43117122188519429553119958891 ∷ 6884025369613602689042062871
    ∷ 56190376779670554536928336431 ∷ 32616165834683196727989304605 ∷ 34492648083144657457666518047
    ∷ 27345669797846984534122060641 ∷ 72483210152825146099014088382 ∷ 63394097143600126918212465639
    ∷ 37020811450448679085229182581 ∷ 59098443150855686470036849034 ∷ 26958639665994388400047520901
    ∷ 18290992917495247319458330758 ∷ 45547061135447610484519366041 ∷ 53769488381783403503148566425
    ∷ 25777804733719188772265497518 ∷ 14763087611032929186621420269 ∷ 66992030945018175376726909563
    ∷ 14838869802027481392126879193 ∷ 1193981814103066469680598628 ∷ 46892124731975593741867321433
    ∷ 60132325729574613652064325399 ∷ 24446728781436985761755921557 ∷ 30193487255844177087684291535
    ∷ 30842685249447479714743480732 ∷ 59263053500574732226488432944 ∷ 59415209785164497662725720783
    ∷ 28059577076595187630019528323 ∷ 41666040573188182063032606180 ∷ 6041468678102570091206789381
    ∷ 77851033233580325435978272762 ∷ 15740081283259116724811247808 ∷ 28685076633450951971816877351
    ∷ 72209584992005737577475386922 ∷ 33816793442287587522221179312 ∷ 64409442325218438205852827470
    ∷ []
