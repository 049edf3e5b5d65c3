-- ===== src/Png/Rows03.antt =====
-- Lines 302 to 451 of ututna/test_png.c, a row of twelve bytes as one number.
use Prim.Native.Nat.{ℕ}
use mathlib.Core.List.{List, [], ◌∷◌}

unfoldable pub rows_03 : List ℕ
rows_03 =
    59362683003884678413387673210 ∷ 1662073039471756488373750687 ∷ 37502982857955304189675667396
    ∷ 71399538967442198841506905925 ∷ 76676092122737625602978686910 ∷ 33292523960504872428818074668
    ∷ 50948773004493619248513245817 ∷ 59173168173912184318518453109 ∷ 12828763843062765117750430944
    ∷ 76187669009803064735663203699 ∷ 36153299367627664105087190501 ∷ 28007378647052346421696741494
    ∷ 40968111266724966534550388451 ∷ 65335690969059908869940044430 ∷ 56085221834856026806228528568
    ∷ 33914070350235409927428605887 ∷ 76481555052027032017881085469 ∷ 32579690127777832567935182419
    ∷ 33333987683590185609616087132 ∷ 17188780084655272924509635534 ∷ 46120710010973471662981106641
    ∷ 15572312622312669793183618714 ∷ 54531115153895403897829864656 ∷ 71741913204969217155025254576
    ∷ 34107643618117620462951916745 ∷ 10415261709125133506371975690 ∷ 28234808296216087101260912991
    ∷ 20355591375767002657337364072 ∷ 59625534217882918376267470324 ∷ 66086128275441611401271758839
    ∷ 21214226801923923118999246372 ∷ 25980156835881028526062791022 ∷ 53445069141267953237484830569
    ∷ 7005065069808629216584758893 ∷ 42590086237921879096806970594 ∷ 10998239045593009027527396805
    ∷ 32603891871405469757215304529 ∷ 29294017913510773519098332297 ∷ 66468389643678200325861546099
    ∷ 33462887856230325859468329422 ∷ 41417409681860433293943920334 ∷ 51082612374179991254556503672
    ∷ 63476781105951814580810768376 ∷ 32997165284024445550527340909 ∷ 59729994167882278723289432057
    ∷ 2861050215725932916589694268 ∷ 20335740544002631742677959894 ∷ 29326103025136770934391146934
    ∷ 18253263678843832545183982770 ∷ 74306798058907756977853095002 ∷ 31961611823330676498670697339
    ∷ 67295433657191397877000799412 ∷ 18982867331023850188844776062 ∷ 8706818134358296106347260372
    ∷ 69900735812695877633163813338 ∷ 35283930007100186264986194362 ∷ 812066485802910416672946908
    ∷ 38850605031501770027320076383 ∷ 21490317412176819112197809695 ∷ 58351615293672577324017467084
    ∷ 25913746037406726074926095011 ∷ 16667298078014572610800596142 ∷ 29921776387820383528416040853
    ∷ 77498648117714331346757468473 ∷ 67687794876139807818078078484 ∷ 7957325384864291291348616984
    ∷ 47550240656683095531838474397 ∷ 4928114350794491989330847793 ∷ 32110317707027436223014512893
    ∷ 43338089511328135237235184098 ∷ 14942812865114020441560732603 ∷ 78222676111477062573602045920
    ∷ 29048615479719390621921727875 ∷ 74038007776187978810153040335 ∷ 74986491257509068052826873725
    ∷ 71228302437869008196780054265 ∷ 7238171466204240303597214935 ∷ 10335218802249858970592453655
    ∷ 63191427008076640769116693536 ∷ 17141876772592451121232246458 ∷ 11305506176209211093990272402
    ∷ 7072743205594679528052379366 ∷ 30506040145620924651536273662 ∷ 64462476941285320339732050761
    ∷ 20470286855810621346015573752 ∷ 57762421256905049001867180624 ∷ 1780346331303289442442154513
    ∷ 76373870338835727208512959670 ∷ 2540457762637180705337560088 ∷ 5019887730393819102853879171
    ∷ 18551403944748460186019015177 ∷ 51593226739706793429117126766 ∷ 30972723152725604513768659523
    ∷ 59485730959022919558740999017 ∷ 44753985741711767725916783468 ∷ 34900593457120871199748258136
    ∷ 15859140147476760925829197698 ∷ 69926713310321047694365235107 ∷ 17067160670973028037546207735
    ∷ 57384701526380824035720736994 ∷ 46274554213967553525083796813 ∷ 68228188398004430152478652058
    ∷ 68216723585713396049601628267 ∷ 16506773239507712517634619062 ∷ 46446684338195528387270314614
    ∷ 52744456178864883848467412094 ∷ 42715100105284010568775874577 ∷ 78680215608281862080737674124
    ∷ 32527379844844854705060570535 ∷ 2614992812350423633561877729 ∷ 7110345849206410315498397331
    ∷ 69622264970025839437070105999 ∷ 30969255472884557072555707231 ∷ 57574416106836781466733638869
    ∷ 18999578368422870278927644444 ∷ 71500556649925159534448271463 ∷ 19528947106487968630788930028
    ∷ 64472661488248929255308333588 ∷ 61753594496795304020875503341 ∷ 4369231556231535656056857682
    ∷ 3446648926495192943943633215 ∷ 66029497799503650301372611555 ∷ 38662950926313296974422908327
    ∷ 53981729392732801130408626770 ∷ 16207432623843339486703521018 ∷ 36688958826201668854694557158
    ∷ 66875919753516044948057139542 ∷ 74857111664286481607558225563 ∷ 37591129510765851227193366318
    ∷ 78905294259407558723112615923 ∷ 2239811852546913262579298134 ∷ 70900719461413220318725395257
    ∷ 63591391058470062832568547415 ∷ 16517974863263701452721211872 ∷ 30485938626277857270383415675
    ∷ 22209620076033754434260782843 ∷ 66062611575173265691448617277 ∷ 53713876387783511636599205607
    ∷ 29698305196473663253846115395 ∷ 10722114975086735516187903147 ∷ 14756464692815206025424444838
    ∷ 61893635828889907034229523540 ∷ 6131875203916415662227163312 ∷ 58114348579420433631493829893
    ∷ 22556996503598819174882216102 ∷ 41568643255500938917067212954 ∷ 37409223900477588508254750289
    ∷ 73353889321039549839151413172 ∷ 61772783883203669331378090061 ∷ 47354370237641228044400148409
    ∷ []
