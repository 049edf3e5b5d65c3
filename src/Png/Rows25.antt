-- ===== src/Png/Rows25.antt =====
-- Lines 3602 to 3751 of ututna/test_png.c, a row of twelve bytes as one number.
use Prim.Native.Nat.{ℕ}
use mathlib.Core.List.{List, [], ◌∷◌}

unfoldable pub rows_25 : List ℕ
rows_25 =
    75907669375468233164877197907 ∷ 48796154713975807885163295503 ∷ 1866501111395599379859573600
    ∷ 58650294734777168083055238399 ∷ 68748235957171460209151745451 ∷ 38986968691376159398357612415
    ∷ 72263761118795684044064351883 ∷ 14618168027666802290398206167 ∷ 21638601854793601624521047847
    ∷ 78448134587471582646265961903 ∷ 599612797083814933702231758 ∷ 77290988430070804014371634428
    ∷ 28624597700518072222907571461 ∷ 24814787083765491333130040941 ∷ 67685874453139944458350552244
    ∷ 17135265531988974840988140215 ∷ 14339951897325077691606874851 ∷ 76843551461701696757398738574
    ∷ 30005667158447126072428314105 ∷ 1542256399326114792469243046 ∷ 11019121509772652959391328097
    ∷ 78859582038992241598832236671 ∷ 61519134408301549123727719085 ∷ 54445782480847330185565336222
    ∷ 9708822587117861180878949629 ∷ 46050017317538216443127375583 ∷ 77732848809291705955963633390
    ∷ 59091556404225710249792241836 ∷ 1775801301242382606269259719 ∷ 73305162688340736064609008476
    ∷ 63629596905836370578959754835 ∷ 59420645724109883748090770278 ∷ 29839209614177112965516901624
    ∷ 74682551813186025078764655399 ∷ 75706099606370773671771086915 ∷ 67196281007149796023518882367
    ∷ 77600737606639363657404601122 ∷ 34347800632149756575974067086 ∷ 2167513051712510696534686703
    ∷ 19013374513307990210746959711 ∷ 75121816905205849871178917857 ∷ 632875060571798197053618031
    ∷ 29663647107151995831894551627 ∷ 69144480274283194184201293693 ∷ 57940846835559998226802563295
    ∷ 56292361615862273439298135751 ∷ 78532797925764986444552586599 ∷ 48896188902950416002974519766
    ∷ 10870353509042270920974923772 ∷ 67438490358624484584594957989 ∷ 57516272358434502907774784554
    ∷ 10301947901587610230503601367 ∷ 58871062694429789786847506439 ∷ 29548536830131873816685739709
    ∷ 78671374132646384457541162078 ∷ 78741683204724299072178473507 ∷ 24203156153357020227425841573
    ∷ 75371830485289929130266238269 ∷ 5869371759871807724526365074 ∷ 46919118115951625744661969628
    ∷ 48438507527660288893755280718 ∷ 803780818822484884921226647 ∷ 59173266399785492135391231986
    ∷ 6647140526099747273772084722 ∷ 43365958135083211553144273373 ∷ 65208540191123233302011480291
    ∷ 67618155531227314624376264599 ∷ 39297210167532482320540882367 ∷ 19635256975361215172458928235
    ∷ 29712001119948156029393711768 ∷ 38317892787021118034426067753 ∷ 66264217576678837450609186439
    ∷ 44224123617494352424931251117 ∷ 25969736853091290190667559917 ∷ 66036354353784124593735526318
    ∷ 49190787083702207630600506871 ∷ 56301707729151921142538686258 ∷ 27154853978872036055723688448
    ∷ 59702540534122806471247708095 ∷ 25744231597978424781154771962 ∷ 62558835840917706734518196473
    ∷ 53636853888972346454941625301 ∷ 72512227081227248048594675687 ∷ 15391984136814993120400700247
    ∷ 47318583580886419210174980577 ∷ 10885308332962788645029316055 ∷ 27581307126478945478987692775
    ∷ 43377718674603900250581531123 ∷ 51390660498957739155162832717 ∷ 59414500825642487629191980487
    ∷ 49483737130842240849196570069 ∷ 17022865807940667524560627334 ∷ 50185512308376194940155157002
    ∷ 31691389654769102786108892841 ∷ 66890366361124236021829408325 ∷ 22655370734466312654601410661
    ∷ 29485818884014730576891673021 ∷ 39339317218060893600421347039 ∷ 59300776198823623101229031091
    ∷ 58871664060740919335571558419 ∷ 6049115455287791588937226307 ∷ 75460317031062832654260638437
    ∷ 22203172867309286244870738454 ∷ 72902268425138093821333496145 ∷ 9359629124089122926365497936
    ∷ 14165699541133003776352902664 ∷ 35517519288432813107013946845 ∷ 20438941415067937071079945476
    ∷ 4636950713994795741032646603 ∷ 6884318191986872956407621913 ∷ 43764901038705772059611912236
    ∷ 5823838414889130741648952495 ∷ 49254488689693903654982931281 ∷ 30105184476426713042446211191
    ∷ 78684863120235511721339025223 ∷ 33893404088707787293022110216 ∷ 17880981405769051922151719144
    ∷ 21482269288549741325642586278 ∷ 65078944764405536814448924628 ∷ 60400354418079105857771335205
    ∷ 63307648144215052867568448983 ∷ 45078595009096313328402414634 ∷ 643556639753369232517166463
    ∷ 52567955620933093916291598930 ∷ 77839859286424518765519235140 ∷ 2661050480748246305012020656
    ∷ 764840988693950318210666353 ∷ 38075811825882377868629285623 ∷ 32939248677745041141715893274
    ∷ 54196072464653488798729943209 ∷ 21914758628320043546515585447 ∷ 39372373041133520738957057992
    ∷ 52290294902313722983725311919 ∷ 24744350602233531416126094733 ∷ 43881425655334053391786799933
    ∷ 23053781241035311537245012680 ∷ 51760607830306666286184773483 ∷ 4860253834144554504980219567
    ∷ 14901845666008894296236217882 ∷ 16724180945071335230926250395 ∷ 72610515477986909854323241647
    ∷ 78714416140102685144161919551 ∷ 57253286451631790096946618554 ∷ 18755628521729396281009293211
    ∷ 68626232917390740775574057259 ∷ 600397938907784696999396866 ∷ 18669087805952435011230820365
    ∷ 72941239823788767852810658322 ∷ 67832128269198015364028882377 ∷ 23539960635134074988017221410
    ∷ []
