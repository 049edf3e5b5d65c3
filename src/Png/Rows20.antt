-- ===== src/Png/Rows20.antt =====
-- Lines 2852 to 3001 of ututna/test_png.c, a row of twelve bytes as one number.
use Prim.Native.Nat.{ℕ}
use mathlib.Core.List.{List, [], ◌∷◌}

unfoldable pub rows_20 : List ℕ
rows_20 =
    7244368304616552001914476608 ∷ 40802473786094529690022271749 ∷ 61992138879802889880542397088
    ∷ 66310125905744020654228774465 ∷ 64152674304406111254249990120 ∷ 39720467588560356415960994720
    ∷ 72525333065707423270851740795 ∷ 31878016268312860961042082995 ∷ 67869205099968146771145868552
    ∷ 62592816916181953476310996411 ∷ 46862502759983610719270303553 ∷ 12723036014542545635150372006
    ∷ 49260950527843697098139123330 ∷ 25600786181154195203573272611 ∷ 63200603802513431966766568547
    ∷ 43989290067927417020138942781 ∷ 76698713708511769538358056224 ∷ 38072804742842089869701943418
    ∷ 40112644702142393115954196319 ∷ 58301864913766670845630200068 ∷ 24932588643100093322119624817
    ∷ 12654736891273225249040511649 ∷ 73343615117112738600795873841 ∷ 37913280022864113651301786928
    ∷ 11974645229537588654799401890 ∷ 69983164919052110529348632586 ∷ 23085940130538860586047398220
    ∷ 20476617697300427303010960848 ∷ 25973360390318087814974948502 ∷ 1219570269334422832795250698
    ∷ 306287633461435769025855549 ∷ 61235752613692291962181870931 ∷ 19678731689938364155262273958
    ∷ 19715380491067168407366348737 ∷ 813191377377354858309654534 ∷ 66531617093563519794819679512
    ∷ 19865151358316677713910694388 ∷ 48144212764244615257725847296 ∷ 75220708789136021929922044098
    ∷ 665651979200878103753122928 ∷ 27864847030324664304412543920 ∷ 280725481465792651811889631
    ∷ 49393680612283572706970206846 ∷ 50115868932410833012009132907 ∷ 18454349713214214976259968747
    ∷ 2284012722979271408857387885 ∷ 12015992574068431466581426801 ∷ 40198153735969394931236727565
    ∷ 13617919167212281358421371365 ∷ 39173364871775892648657197760 ∷ 20159777549863985261855341162
    ∷ 7817370768682692723565597616 ∷ 67750471631665237891219968 ∷ 73411219329211232993273649029
    ∷ 61762271215873838748488727055 ∷ 6809005529417842803619366057 ∷ 10246696130951350852378904597
    ∷ 25384295774567871501857620185 ∷ 4337201495787800671197045983 ∷ 50963793473429091618893686458
    ∷ 62779231537886378173651822765 ∷ 6296087822270944586904151938 ∷ 8350652628211401812334311444
    ∷ 249246757113195858020666518 ∷ 30230851197657424416358641580 ∷ 36916820402304433233140330772
    ∷ 78194605176638371384623537204 ∷ 1539720160548714187989647962 ∷ 12856328491003043612741740437
    ∷ 14877804275878707891303447938 ∷ 1779923746117084309334524437 ∷ 46474641206232093877362868084
    ∷ 33588521126847593522195360352 ∷ 445887927600873081640753240 ∷ 74126102916087119662362901810
    ∷ 46589115227755813242566896781 ∷ 49852091500936496506597863356 ∷ 52476111429116390397779190781
    ∷ 12038371808765412316958994812 ∷ 1416754930683908356339401223 ∷ 32874040697369811277643009500
    ∷ 76781299544418127201296646132 ∷ 31337176760319709906240711758 ∷ 72703061641941736395164245341
    ∷ 61762512970455994791317586426 ∷ 71274629037946408976181183328 ∷ 1291140592844800902305035521
    ∷ 17111558236192020854276362515 ∷ 78838782322244089160925372456 ∷ 70434875290603574400202263573
    ∷ 47963949906998778682900544075 ∷ 73232208142907760103800230200 ∷ 74579264218405204853686689793
    ∷ 34842380489407521497478454578 ∷ 30044897833238299413794576524 ∷ 47193144280477267535536049735
    ∷ 25593621293318224165513012556 ∷ 22215461642212443773659349975 ∷ 1313849283940263488566869198
    ∷ 13428559009128252838944981162 ∷ 9909566788799206266390196907 ∷ 33468080003648330553456394689
    ∷ 28474975691783523448367188278 ∷ 380760568904575959979488692 ∷ 71906559720475025016284323688
    ∷ 76132438922446162575744811030 ∷ 59674730476364508880139506490 ∷ 75976967737656573398160451708
    ∷ 21880815047347648475154017314 ∷ 52173464872559891195335379277 ∷ 5481450592579976665852324991
    ∷ 54469630803749332835031334013 ∷ 55977667212351724486406662651 ∷ 49625048631572525453793156092
    ∷ 73157856588184286550417618809 ∷ 42963138294504627394057804541 ∷ 72751919557719999143475884303
    ∷ 3820206107895339434327582502 ∷ 47156187003106855829911927656 ∷ 15137609122221894488661607319
    ∷ 10728629431536546760374614722 ∷ 55945049485162265896176562624 ∷ 38034350563956400564673266400
    ∷ 60332040765945738189880712183 ∷ 50069763573120935953284452512 ∷ 72324688168403386445554618205
    ∷ 35886581538578131747875357233 ∷ 47691250410337082260095573908 ∷ 60283318399762816138157468788
    ∷ 59267408380877038861096077577 ∷ 39672505117234485658201154542 ∷ 26101167655394105664785795377
    ∷ 46039106123487842718656626887 ∷ 3267943144074849280656301348 ∷ 20026326559094085063068813491
    ∷ 3670481141058419418845059959 ∷ 36189743253229514984481981009 ∷ 2632171075945964632494642864
    ∷ 68336053837381482432671865 ∷ 38715856110067842865667893396 ∷ 28863823474391808965464167604
    ∷ 45961330939240570915201245007 ∷ 66883678784014947460592842537 ∷ 20741077632414103692045149809
    ∷ 66237481157106812404094393921 ∷ 56321342081886967785045690575 ∷ 21042193567713168653940701405
    ∷ 27260022628823778402354905684 ∷ 23849698801782092407218038640 ∷ 37146160601931700648457837508
    ∷ []
