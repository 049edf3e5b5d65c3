-- ===== src/Png/Rows11.antt =====
-- Lines 1502 to 1651 of ututna/test_png.c, a row of twelve bytes as one number.
use Prim.Native.Nat.{ℕ}
use mathlib.Core.List.{List, [], ◌∷◌}

unfoldable pub rows_11 : List ℕ
rows_11 =
    56397547665203550776621618346 ∷ 28540065310463021307679515200 ∷ 76736821905292659014074778825
    ∷ 64898361958788476580477878755 ∷ 44573592629847950611157515322 ∷ 7267198668682877351109961980
    ∷ 45219692646730520224164360571 ∷ 18378152561167875877239748734 ∷ 11438383706633517298186541278
    ∷ 41015917672771490702324028939 ∷ 27637223070878296823014236837 ∷ 38397810718789077943430286831
    ∷ 53602411291457223248374652174 ∷ 34950094472575118591435205374 ∷ 50976857126149816185155561265
    ∷ 54294121993179790217087619637 ∷ 16256214081461065769669573802 ∷ 77661142663968595586602884912
    ∷ 61099410895585362523409118137 ∷ 38507579448484544824982717107 ∷ 67030326155065953974523828188
    ∷ 63872243051463915977919971600 ∷ 71867281337343345745141487711 ∷ 59351813750081547416139043822
    ∷ 68362663139038830037596073093 ∷ 9151357168037679721210418252 ∷ 55617958474283621996534437348
    ∷ 45746106947331258785629346539 ∷ 28494808211954503629965503564 ∷ 63742847724993889305444584848
    ∷ 11653117132302828048843236061 ∷ 67012021922738083678881262080 ∷ 53880681248286967720826489597
    ∷ 49529034489415153049207948527 ∷ 33081583497748836915999551619 ∷ 32369697225247447042782427825
    ∷ 56938874267279148982957316467 ∷ 55920186548242788640889031613 ∷ 67149514395686034730656354949
    ∷ 43696790667440776350587833852 ∷ 17701575962008176055829416746 ∷ 56420961434266268644984348532
    ∷ 37302510943326599765072695307 ∷ 22624424113960047974956242671 ∷ 75716794112290233293852860841
    ∷ 34486199163293983027194133073 ∷ 69781868712397404718865759327 ∷ 62798015666748478646343801098
    ∷ 12881856661174666665129014680 ∷ 61555072193085630288491068927 ∷ 76147181115279743556491195714
    ∷ 6500200745618885754842051560 ∷ 6988756721129934387921605385 ∷ 56723522435161020614318049932
    ∷ 46473860484642194796852656860 ∷ 29880517524028175928693987538 ∷ 74938621065936964954429654823
    ∷ 15682277129145287882051020557 ∷ 3747343054670572130676197610 ∷ 43695461072806144713731212762
    ∷ 7865681694395813108135311662 ∷ 37468871497658652201789825765 ∷ 25812478372599866007668617650
    ∷ 27471177560640725688031970390 ∷ 55911339536246346014884788589 ∷ 48519345792083911249449061727
    ∷ 23092756649698919507437907044 ∷ 32021325269699205451496128584 ∷ 2368066156150288526143426454
    ∷ 78817503535338622108816348394 ∷ 53759342238887145170843204907 ∷ 36867197414993817976295928764
    ∷ 70901990078072421579969630285 ∷ 19225030400967389500626801229 ∷ 9888798237284575133890332981
    ∷ 50490378302896197666621745481 ∷ 11791500010729537458685176345 ∷ 13617952624758163045997283215
    ∷ 37336660255905521975468002499 ∷ 33636553321310662321768991847 ∷ 67400782481345707292809630439
    ∷ 54091726319689740007098250056 ∷ 47681878143809616940384784643 ∷ 28345714488482406834789943699
    ∷ 37668119932551771712573339756 ∷ 38875348313987668425129601796 ∷ 63926674013818718046088176153
    ∷ 52043983572991050115603547449 ∷ 11710109293049098987617739039 ∷ 13072372996797882011293965095
    ∷ 30840056356807293621959739291 ∷ 53930680967932359101572830976 ∷ 26306660804210415598896583241
    ∷ 78570400258839706231391547026 ∷ 38037727206253032457300202723 ∷ 62698805708943491870279891991
    ∷ 43721815804379233264291763711 ∷ 46374103117248565245379213852 ∷ 8129362721016402202858385820
    ∷ 5596648095755620536157872366 ∷ 2856613364439351744990202711 ∷ 45723590936261690422188770476
    ∷ 44452930209637557355309797012 ∷ 13991870311002315484233874227 ∷ 37768037033373669056359505099
    ∷ 10840287243369821477875796497 ∷ 22100862054431570640636044355 ∷ 52723896546427752874157434221
    ∷ 32574896385952403660240286373 ∷ 45830957859693650767739111408 ∷ 67362322393081510679974055910
    ∷ 25156007242208804910292794964 ∷ 54344531186396855297554446121 ∷ 13208731363474265601744765230
    ∷ 34011488067199800044863876615 ∷ 75232632048343660198088179653 ∷ 58306422642766645962207532267
    ∷ 57779807802678527002728631519 ∷ 28832212970186161174375856692 ∷ 19180833843916312343334772632
    ∷ 19387073349302082142303179766 ∷ 31732717126746589187843797300 ∷ 30413250886054480890463823645
    ∷ 29531605038260063608996259944 ∷ 8971582679539050672578303881 ∷ 10490343344180005274475381564
    ∷ 70284389254997972222987222422 ∷ 22182530012862037158461706317 ∷ 8247919394428928162682118769
    ∷ 27547646114857895403643958132 ∷ 12987262930709450373526393934 ∷ 1804944785196462737092493066
    ∷ 69325500258886935562250416454 ∷ 35383457117979934400974384070 ∷ 10650876910037888759242680040
    ∷ 368133469275786252912106357 ∷ 19033835764301404388756289602 ∷ 68283831235777476545152866150
    ∷ 50939096009028423960599808503 ∷ 62054357539796830135397720608 ∷ 74266623605115742121669013925
    ∷ 45838054018228413498974645996 ∷ 15463852134768633346719813635 ∷ 76334055383082956110104363775
    ∷ 77553562544242448468125303018 ∷ 7636164810281059123906264156 ∷ 75799528920960624833408093837
    ∷ 3071323068119529530627966752 ∷ 13889587380735017551370360571 ∷ 16766204349021350068247449861
    ∷ []
