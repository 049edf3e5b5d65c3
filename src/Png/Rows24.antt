-- ===== src/Png/Rows24.antt =====
-- Lines 3452 to 3601 of ututna/test_png.c, a row of twelve bytes as one number.
use Prim.Native.Nat.{ℕ}
use mathlib.Core.List.{List, [], ◌∷◌}

unfoldable pub rows_24 : List ℕ
rows_24 =
    56710613636279765124048255662 ∷ 77017169397478380189933023979 ∷ 64873051771775060153780908465
    ∷ 54993666260120145200459027279 ∷ 67364968610866484784015052542 ∷ 74331028832096349518230634492
    ∷ 67720550983878466661989067128 ∷ 71459111400742006901729592365 ∷ 34583712110086480379655487920
    ∷ 68996748810199154075833000799 ∷ 75061502277832988505551707387 ∷ 58202373257953457425022434666
    ∷ 62948690725332701789098963355 ∷ 44357607870347853405346041197 ∷ 68923797918425188713179770106
    ∷ 60789469284182330324354188599 ∷ 58794773603018006940521935791 ∷ 67759463545479238909471705790
    ∷ 63906109577201938446221694036 ∷ 61780940003199446759911915610 ∷ 53567931273015810539808247442
    ∷ 1239008332180308629265566471 ∷ 24600403154744108765611320803 ∷ 9090089420145480402310319865
    ∷ 72530668734378524264976760813 ∷ 5481258467159218945629534075 ∷ 19334925718282822457291826823
    ∷ 78818978339181361060496454503 ∷ 72315803586671072086728267643 ∷ 22016370303931053683718279772
    ∷ 18416751108996075651386860775 ∷ 29553973909291244689052541877 ∷ 6559079246161649905962547434
    ∷ 20313462916663133400744056249 ∷ 57440417825427377611691740131 ∷ 44884355469980535583895150238
    ∷ 77232668359911864380597722511 ∷ 43025721875773576506853580541 ∷ 47616867705670516828632870050
    ∷ 43735681571727974476096299006 ∷ 36643673186955169193569307767 ∷ 56891274371485099376154220267
    ∷ 36208486973662044444170548194 ∷ 67663095145855527897716585186 ∷ 21973388195625307722024122693
    ∷ 46596831219441979830807805746 ∷ 56756535106000898792692956611 ∷ 9742652693850504962305424313
    ∷ 5897069528719641653180101867 ∷ 39600084164835579987314048767 ∷ 7575072274686482667114667411
    ∷ 1682607439689217770263142384 ∷ 6496682070611534198833202704 ∷ 69583199350832003550695695640
    ∷ 2003046197318764971401550679 ∷ 35399690161407516224654241631 ∷ 63715284065896384741747304935
    ∷ 74269049896361090202430356977 ∷ 51963276230087124320711736991 ∷ 76633605770677711873213410199
    ∷ 77581673993054404354114672646 ∷ 1958462723612266414756836795 ∷ 27204150761305002566825636094
    ∷ 3723780464765760481788843839 ∷ 76343925616723723588837471802 ∷ 2940973528991881820859006854
    ∷ 68702796175922999272369648487 ∷ 48573618070114241761772342989 ∷ 58183977363692427362576417028
    ∷ 58029450408616722748776660858 ∷ 75002616636987585375061191431 ∷ 13488825021079398193706560076
    ∷ 76040225030975698979368223294 ∷ 75714397187780778928371301871 ∷ 39553660186161681806259295887
    ∷ 78515253278935201661771336860 ∷ 75413885199883975772283936604 ∷ 36245036170817767973509678926
    ∷ 34536841884793775271039529651 ∷ 27033352416243799819951193597 ∷ 69846666714135081278664948705
    ∷ 33849758726765920027478365387 ∷ 35745461001548420237829026803 ∷ 35848781070030046263285019505
    ∷ 35266423328653230425303383535 ∷ 47568387873294199729517875657 ∷ 64887040821002748795773842678
    ∷ 8461828848680143458535915772 ∷ 28868610310165383121467177163 ∷ 77794951994973845469200796522
    ∷ 35648185923634868314110291806 ∷ 69765457996211662658624641798 ∷ 43364446840734552949526756926
    ∷ 56514245510053240282873455352 ∷ 59418949432463234353459552623 ∷ 77363692638902917147361220096
    ∷ 40601812021174325583243884069 ∷ 1340046748644020940065681371 ∷ 16009861333352473909684323407
    ∷ 50315883190443219846307316610 ∷ 36144364244945839569470103072 ∷ 69491272985428176524714219967
    ∷ 67431104111421301474744851279 ∷ 14531937300024652828388759009 ∷ 49028435443786684345402633531
    ∷ 78268708089362998552342329041 ∷ 46678771620011273421408516479 ∷ 68869443240933408837445835566
    ∷ 77947740589584977724773222753 ∷ 36028462061128172850037840635 ∷ 51908198751690469686733930232
    ∷ 27669893998953959396065813226 ∷ 76596989301452489359118396639 ∷ 74486565927831925914565601635
    ∷ 79106327801940107013225896579 ∷ 69169699462941731906509438582 ∷ 75448153544898093637310195757
    ∷ 66339745100115517204940016293 ∷ 25485876034428269441385985157 ∷ 36353258552914739621798907687
    ∷ 70528597201078803171877557147 ∷ 65685132646042503504413083415 ∷ 13520629468120637947048328296
    ∷ 77263930221080619057516265135 ∷ 13036737053559920769658099354 ∷ 49156722465893315148336359544
    ∷ 51132988480215797339931272701 ∷ 55165370546259926936462682735 ∷ 73548265476413073418402349332
    ∷ 61103795059912706857144103780 ∷ 59122971367898243305944692677 ∷ 3615287299265139267900243163
    ∷ 21489831444956846432766703828 ∷ 56518193912528344042675464519 ∷ 4226697306202661476315647992
    ∷ 69124317107255756322990447329 ∷ 77862248571955990676223779169 ∷ 71681296932424236396155740126
    ∷ 77339137944443094944104447453 ∷ 14850180642692447339064405471 ∷ 67438409899361016270267612785
    ∷ 77176236635920351628566977362 ∷ 61643105258952549261580554543 ∷ 69158903327476003205546999239
    ∷ 5819763805972379944913688410 ∷ 71163682822913063829964025528 ∷ 69796252815993735967219304165
    ∷ 54414407216796395571295835437 ∷ 79196763707573721211391092536 ∷ 66619613667341229499846927551
    ∷ []
