-- ===== src/Png/Rows13.antt =====
-- Lines 1802 to 1951 of ututna/test_png.c, a row of twelve bytes as one number.
use Prim.Native.Nat.{ℕ}
use mathlib.Core.List.{List, [], ◌∷◌}

unfoldable pub rows_13 : List ℕ
rows_13 =
    41022254101457694351170712935 ∷ 61576973906317210683629595302 ∷ 52839649147530175531530894361
    ∷ 47498656353706694086087901563 ∷ 42722900179982849661448157822 ∷ 74828986363044135172992750371
    ∷ 31197640061423023007482550611 ∷ 31790101396984534288839759930 ∷ 11244419183481809226163152315
    ∷ 51275437695827202574854444771 ∷ 28781719711970435269330488276 ∷ 28289649949649082915936813100
    ∷ 50069564525504469938757802341 ∷ 37435333448011406857536223105 ∷ 50973163119240616920071883821
    ∷ 25890617765446097603627969421 ∷ 73128563173977757129034669505 ∷ 50229523452601531170999358619
    ∷ 42208911137242596179398299909 ∷ 33680936377987980010491430684 ∷ 30702116519653274041738145417
    ∷ 19902573222377590797906066269 ∷ 6994391205374696741707285596 ∷ 2107776593627751146150714129
    ∷ 5029310876373914209398469579 ∷ 49619800574691704596641000529 ∷ 35643577060370981034585463235
    ∷ 12930536032471585152989995952 ∷ 280668926389752530139283975 ∷ 37805571704383547463961741537
    ∷ 57408972767356326393725499523 ∷ 25265436967853468022306195289 ∷ 34099275402181228240431831726
    ∷ 505644037502501012532268128 ∷ 60783330698029578930161265073 ∷ 32530382075521136213310407107
    ∷ 6677647862428599494375959641 ∷ 72624254082143571040827296032 ∷ 43876840260432197262141495651
    ∷ 20998089103817507398547198347 ∷ 17570850800655178810226213210 ∷ 65600725667812499180535136106
    ∷ 4077177932659439785648301771 ∷ 12620471756887770222716743701 ∷ 62731515725145253636676864420
    ∷ 62267067118168995447924393257 ∷ 44744991931562968086032737861 ∷ 2988423977997349934196961229
    ∷ 72160214934260775570121027281 ∷ 25619293793152678130427498729 ∷ 15959653992332839468003631531
    ∷ 13922038479877303937973023206 ∷ 6620021284392280068579790402 ∷ 10036358389985753552491397059
    ∷ 54827066158971441376202147626 ∷ 69493589204686156318497393377 ∷ 23843530482833426920724999739
    ∷ 10912177716301759533924398728 ∷ 31656699028230939816267416750 ∷ 4808263445033312046487716397
    ∷ 15932423453021918910810390820 ∷ 20205808031941737655446443851 ∷ 47132149341137257793450275122
    ∷ 21687202160054551462676852337 ∷ 44137619561315964868553907874 ∷ 34286473552217479709790277325
    ∷ 23201487508645872452648306796 ∷ 7511264152969978254906913164 ∷ 63719329269979432781320630622
    ∷ 5712705602818988074643396967 ∷ 49782065347801546527914942684 ∷ 32413696803309938556456086732
    ∷ 936172369134820967473229595 ∷ 18145891031952351342823129539 ∷ 49492978333871767771534133340
    ∷ 60878942281733842842153602820 ∷ 39852364211867653168087012050 ∷ 35358846493205924391058951044
    ∷ 73809847152673748660046212216 ∷ 36408981655740532498141861245 ∷ 1766720022780562581551557269
    ∷ 2379463698588055704612399426 ∷ 544725454937933205146332253 ∷ 3234130774796355167445123889
    ∷ 27551760737852422555520152916 ∷ 65456426544769660254877697884 ∷ 4319596328180168586625626206
    ∷ 17009131996706749369637934579 ∷ 23840023374664846229370386005 ∷ 52583033256892659405505699150
    ∷ 43679326040984782162656529091 ∷ 26417422466462077396961113196 ∷ 50150725240964297839439562620
    ∷ 32939457272898759124581439427 ∷ 49877931891952551021582855572 ∷ 55007780083597142445029355696
    ∷ 71219202946620418895251179131 ∷ 19976562090413312006360469137 ∷ 53967082342773655577085679360
    ∷ 70564349212444792425745574849 ∷ 6520430479617080454086903528 ∷ 1653815023276286983207890426
    ∷ 49348300759093796777754687278 ∷ 40069080314861385722763589261 ∷ 48712370402180960368150587153
    ∷ 13124253258392083912636674683 ∷ 9595425052566720221239984940 ∷ 59148259418579115726371477866
    ∷ 49713601046186751376094500116 ∷ 29238837367587793846405235016 ∷ 23399677200784696350480957791
    ∷ 19073584262038006001055353670 ∷ 67715822992792502449746772338 ∷ 8719031859731586793456897092
    ∷ 4954998889471162365774498354 ∷ 72647732468946515758297944340 ∷ 78781032159474676584888658411
    ∷ 63462812681101743361028892586 ∷ 40846111578307037313230872452 ∷ 67239394803152984370100631956
    ∷ 56425496013434706017751754117 ∷ 36755057706789858212852567134 ∷ 39620430759054703579204284591
    ∷ 44440404775695876395399690819 ∷ 73617907078099527447496543913 ∷ 52839492585166216921884187979
    ∷ 8023396448486149936621305975 ∷ 65214845435957411880469004866 ∷ 49771536570409700765050686698
    ∷ 58842911313830392340324902164 ∷ 55645214841358526025012713598 ∷ 12255535777101983165975040265
    ∷ 10306869766502050397170459069 ∷ 19867711421041818608362331169 ∷ 55017799251954056503052732496
    ∷ 12427030483863519565014143256 ∷ 745556817140718209276013752 ∷ 67855974444076499712927507074
    ∷ 11962798948931355706809679078 ∷ 44318220342849963529127976732 ∷ 52058061746208484437124010520
    ∷ 43697595554477733578215973362 ∷ 73367303367549271726495605023 ∷ 35392346058075888282560359575
    ∷ 10813669541397986514392197500 ∷ 6346427935572739392559032113 ∷ 63216914131764027112303407339
    ∷ 12291846429104996284451775437 ∷ 77120023150228052816057619238 ∷ 46420286210152853493791786334
    ∷ []
