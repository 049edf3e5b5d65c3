-- ===== src/Png/Rows07.antt =====
-- Lines 902 to 1051 of ututna/test_png.c, a row of twelve bytes as one number.
use Prim.Native.Nat.{ℕ}
use mathlib.Core.List.{List, [], ◌∷◌}

unfoldable pub rows_07 : List ℕ
rows_07 =
    48795983064829568876248856762 ∷ 17944299887622388040543162953 ∷ 42660747028820773541948438351
    ∷ 65807970388675896683389045027 ∷ 25581765570664687745920157533 ∷ 72694054150324049477597852040
    ∷ 60750716527587616648844592134 ∷ 78503443642946294669428035056 ∷ 73288792043055959436317890226
    ∷ 31263847461954303278595176929 ∷ 14839407853318730368290929835 ∷ 9919264328871385432084637177
    ∷ 394494395723535832847804673 ∷ 59426875700588112748259965895 ∷ 14839281195269147753333528351
    ∷ 51542056679828195353420740385 ∷ 60347879223612732737398656576 ∷ 38645906060507426800264435962
    ∷ 76165818512305646841501343633 ∷ 76116316195828723617886588396 ∷ 23590617574153261178682369645
    ∷ 20249178041975634651761171771 ∷ 40732815014950825837047474854 ∷ 43808392230232834169083966320
    ∷ 66150613684535634475229372088 ∷ 10681238152937446102310511341 ∷ 47290095872988321518070670837
    ∷ 56506592080162283813325556713 ∷ 13809449575818539535448109799 ∷ 70742856557222068619056564234
    ∷ 8416198340609492419700059768 ∷ 35933924931895892986980265340 ∷ 45171481145605194923632488502
    ∷ 13208852558634804780501288616 ∷ 79111469159487631600283601265 ∷ 52867036775132205866601336298
    ∷ 45543058787989893686370521518 ∷ 64109204015685951789977148340 ∷ 63421358547377089269187781791
    ∷ 12047361431449250646212540776 ∷ 31092863700931607659772642463 ∷ 47509326624330002857462959806
    ∷ 35088053008775461716619784741 ∷ 42102503178936071484321868546 ∷ 57008428995112482845550365462
    ∷ 5040531315094314039001222874 ∷ 32759771626265481665583971016 ∷ 7265470812280283894793042213
    ∷ 8036109545080070696060834834 ∷ 33649283465677844435796679989 ∷ 38710924671931807658423218739
    ∷ 4898332946383692707285974608 ∷ 1780698174474012440192368374 ∷ 16344253990819818240198690140
    ∷ 24067257625985816628543371908 ∷ 73504511317279926370468996287 ∷ 14215923793111490407476151166
    ∷ 28514245358094066138284692099 ∷ 37900560298902430373133784941 ∷ 77684637972132997605090036231
    ∷ 53105806656471517760788898246 ∷ 77202509531262804979213734635 ∷ 60259383217089446452556353856
    ∷ 62522158207000783526340705266 ∷ 36759708481962595072167352501 ∷ 68311971602620712308951413085
    ∷ 3703383374975733692412448361 ∷ 10605357718172729964841691879 ∷ 59810357657801815412932245739
    ∷ 54965205048367363625362463868 ∷ 73999640418358861577262199307 ∷ 34483800746243995375773155738
    ∷ 8289297233825971267500625545 ∷ 70858807936237156947065731919 ∷ 75122697379466120679111709200
    ∷ 71136351418026316767433426584 ∷ 69285779257021771353722071596 ∷ 23455284403569778297012089948
    ∷ 58998936529318919831894983725 ∷ 69128173577136105526672426648 ∷ 11730531826979181987836353139
    ∷ 23793671838976098210656335840 ∷ 5129883954614433258839849497 ∷ 186106136412370336305999181
    ∷ 53359755546503889930588088510 ∷ 9926843272488720718718879083 ∷ 16266219213041138572067636488
    ∷ 69319536330145167988712598272 ∷ 39579468787133378727127498930 ∷ 67833925194094371937006036902
    ∷ 34759098755028034015485150195 ∷ 10263658161982474449542935138 ∷ 53331472278914912229967628629
    ∷ 31281305545879013072451935643 ∷ 69831469456061282918395681434 ∷ 50873049416991712748728623292
    ∷ 72134748329665950038931372040 ∷ 2808280667975718701255820491 ∷ 77820513476689020828378187074
    ∷ 44162133202317754952491225474 ∷ 16755149726550431141644473672 ∷ 26740361040557920757552202310
    ∷ 72057705441812882123372529612 ∷ 65032713110209233540994270934 ∷ 48233432308586380255784741406
    ∷ 49503758488361808266767070272 ∷ 25460665037290846166800899962 ∷ 47060755127110913103360948649
    ∷ 73712629578130048787604683575 ∷ 50429017152558762851359700580 ∷ 24097484770025777334905529221
    ∷ 24330988767561145257087549853 ∷ 59154075868650642338432266721 ∷ 41051790901367333174324147314
    ∷ 46989072156111543404360461368 ∷ 45563891433931784306649794645 ∷ 71050156862408294807072226937
    ∷ 41776896324173283044909849083 ∷ 8704121951165060764533416045 ∷ 46289334912223148483642011616
    ∷ 35123595015506636827258692865 ∷ 74189990047562877584507484078 ∷ 23503113005894350007932871169
    ∷ 40695711780504733517155485883 ∷ 57134139334502767494018557470 ∷ 60464332970253943393471688458
    ∷ 64198834519121254580551038541 ∷ 63140114973031677467514358421 ∷ 42438060181313158704556685405
    ∷ 22222921158523713681959466782 ∷ 70540883532317891960347689054 ∷ 34194317431009202717315442575
    ∷ 9367612703720246961907258667 ∷ 7344519929410271348245703552 ∷ 76512487512379061998377666994
    ∷ 31343266965737899115119131060 ∷ 61416000334904932779344070129 ∷ 75678364131337769881094620767
    ∷ 44156997886255369527799085142 ∷ 46838692421348702063502084338 ∷ 5722223097581236078965112518
    ∷ 12319192363194522732515027583 ∷ 54411154139041663983502169083 ∷ 76934476741394540423469111584
    ∷ 19326360995395377991344088381 ∷ 37296861170007951671848768469 ∷ 10410213949871866585154626822
    ∷ 18655388642883924718486174350 ∷ 44227971808447298151724129894 ∷ 59704012191621210617849398661
    ∷ []
