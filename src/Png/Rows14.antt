-- ===== src/Png/Rows14.antt =====
-- Lines 1952 to 2101 of ututna/test_png.c, a row of twelve bytes as one number.
use Prim.Native.Nat.{ℕ}
use mathlib.Core.List.{List, [], ◌∷◌}

unfoldable pub rows_14 : List ℕ
rows_14 =
    47768816984879728873330517144 ∷ 8781705907032504001890549809 ∷ 45214821608496105008639782542
    ∷ 78015012685698062705447936635 ∷ 3401102759005521478949943216 ∷ 8622834304926916714769260741
    ∷ 42694008004495227956737800981 ∷ 41606563548903405064839603077 ∷ 50780405836242839497696092816
    ∷ 58024310579248633656615249017 ∷ 45404249558156981878462068744 ∷ 16605321426752523520550039309
    ∷ 27235833275029462080006378701 ∷ 68790383470962975273162259797 ∷ 77066299680559492162199847997
    ∷ 51333331974024093930638008701 ∷ 51775884241179369001536919349 ∷ 23150733687440390082858018596
    ∷ 23968923757476812627108641061 ∷ 16242474092347386533743600362 ∷ 59242066950897320442389419881
    ∷ 56692138181265898364066500535 ∷ 280974095315579147007134110 ∷ 67867529028644178798831277465
    ∷ 45017654046690894043537110082 ∷ 61038048448548215695228378818 ∷ 4628033836294838257339804196
    ∷ 26274941215940603913965678111 ∷ 57689959379465265993592931776 ∷ 58935798061162097672422559232
    ∷ 4819968925697758665911467423 ∷ 51878357753114662376210837 ∷ 8498489704933710896256437244
    ∷ 65651027502939771598757084450 ∷ 44585757359870741240184923313 ∷ 48282588096883002147322714087
    ∷ 6654249901005573163574345930 ∷ 52340776633800824053480722642 ∷ 37914041230869811804404406951
    ∷ 74809177680405232642997927092 ∷ 49549928905211779745733166646 ∷ 908111189344010672529912828
    ∷ 3584640844367549729485843567 ∷ 58723824442482361521178845158 ∷ 48979828989270774286829671504
    ∷ 49363827553867793564431464687 ∷ 76303197169691024759406260311 ∷ 6356569586405262551895174379
    ∷ 61558626327996693507897329234 ∷ 57241964625906710073045503746 ∷ 39249197586109493699929461690
    ∷ 77031220318285652453586163380 ∷ 71063411482834635740802083494 ∷ 50038648762607722490609120872
    ∷ 52077892547455308691021613135 ∷ 14804452164991309412622006926 ∷ 51693753996373578694519114407
    ∷ 75896217778536941439595064872 ∷ 49291259892930096778563093641 ∷ 40472269798008300277240384406
    ∷ 10599883056158654430058795304 ∷ 1096361890659078961357577293 ∷ 24246603917129877125078589643
    ∷ 1598851766120780407249614611 ∷ 30303609153107013335622763807 ∷ 35479507055076924059952509738
    ∷ 59212683465484062661812637706 ∷ 10891301960974549126917124284 ∷ 5918921368062489497842085635
    ∷ 71168474279695710183732250516 ∷ 79175119050618183906728616416 ∷ 32041039534926327041801987901
    ∷ 43174849152080233884652184663 ∷ 40067809823329312456723764418 ∷ 40908679733211706292963837066
    ∷ 39430628255232799222934617013 ∷ 19081280997326994621592043126 ∷ 66006055265766334419471475525
    ∷ 37277217163444622171960836334 ∷ 16724138660726542997185767696 ∷ 8857417964848731231921487199
    ∷ 45450927097355683922036247545 ∷ 78467233461562672934214374559 ∷ 72323448427270427235486542707
    ∷ 13951428097872258735392452216 ∷ 17393661100261516293415589384 ∷ 6809566294718990510507205544
    ∷ 33450107825952583979272902181 ∷ 71168674826352084839106053199 ∷ 29034782648042848550908085621
    ∷ 74029695887332642095645856418 ∷ 50284657281697866690380728194 ∷ 59951647327220269716491249631
    ∷ 32507200691606198615179837613 ∷ 4054103022183274847828743893 ∷ 22903275785000675988435722720
    ∷ 40458634634655333214421680522 ∷ 8675594079797410185017204666 ∷ 21640407482753698656133369134
    ∷ 30710452414483667003848383564 ∷ 4343978211721389477143635847 ∷ 52881277264989791672498866767
    ∷ 53859481287898668608486228110 ∷ 13158436000792523957109522464 ∷ 88573910894360431542799038
    ∷ 10163764305381341342020796460 ∷ 148102030270709950224329199 ∷ 15047752072751400354186800948
    ∷ 7403990500106178153156977532 ∷ 19702310817570486347912213305 ∷ 78374017331414878735708232667
    ∷ 9263206661301435889952803155 ∷ 35357951309849944745463819762 ∷ 13318957910868513554026673487
    ∷ 44523904757937610059743066240 ∷ 57966380313037694763360770282 ∷ 36386608971127574149857237418
    ∷ 45852465633082789766365178320 ∷ 64759108596859500825889706621 ∷ 33535699584981797061908306752
    ∷ 2770672926057640116094679591 ∷ 45729581968899725788137720056 ∷ 70928220276745040541410049896
    ∷ 77571194870187394062936709376 ∷ 39208089963597784931120360495 ∷ 52696117593777924974203703931
    ∷ 5081105668105471761197428225 ∷ 37502398933117672053143313899 ∷ 65015453956948386265968030893
    ∷ 30811008068971647362976121064 ∷ 24407875178362876679168135685 ∷ 13731974287447237297232162931
    ∷ 5386974052483294144232090418 ∷ 35538988484266046947470155554 ∷ 48427331361978275072636985915
    ∷ 64509163903414029419269028079 ∷ 28628739248364820479897166307 ∷ 67569091283713888634028161843
    ∷ 72574092009879440012343637032 ∷ 51135198915955418397819976406 ∷ 46576176896546614311518758146
    ∷ 20465054912796155664676287067 ∷ 46942644742524451535058642502 ∷ 49614406960703661380773900451
    ∷ 73304135061730770998908985594 ∷ 17788145274704502231072308366 ∷ 48381813822675755431369627540
    ∷ 30585520766051949513417387152 ∷ 44858910156671749469322359364 ∷ 5693643244154283994288489001
    ∷ []
