-- ===== src/Png/Rows12.antt =====
-- Lines 1652 to 1801 of ututna/test_png.c, a row of twelve bytes as one number.
use Prim.Native.Nat.{ℕ}
use mathlib.Core.List.{List, [], ◌∷◌}

unfoldable pub rows_12 : List ℕ
rows_12 =
    36444049757230683755873691000 ∷ 46636517876866243634038233632 ∷ 75859123842583782691398857232
    ∷ 31926681833351957355463407634 ∷ 67645105474319784973141084972 ∷ 53291415441414120319600475383
    ∷ 35269079966589887519229904261 ∷ 46059289594988906454763525021 ∷ 76134218834146368899883060392
    ∷ 30208735789289495303879134704 ∷ 9119082160162350532434767541 ∷ 12086184780996772442953671636
    ∷ 7204373264728513585541567203 ∷ 66255231265217201192072755364 ∷ 76252515117603273876308815660
    ∷ 58466074267937869517644997555 ∷ 53049381380764798956528440206 ∷ 37359389197351765776273208238
    ∷ 23533609131426810162438194867 ∷ 34196882895881037985937622015 ∷ 3136918070722293778820430650
    ∷ 39798819525699055246285392045 ∷ 48649267824253347846837317452 ∷ 3118169995845307478707168953
    ∷ 46213971977361038011078470104 ∷ 38121966422701365271046114790 ∷ 73288523904453475938767476080
    ∷ 70110388169497792159013263709 ∷ 22647230444289339545412620986 ∷ 19348203330289070159730388970
    ∷ 54821234019451755465747766991 ∷ 33485569367532530714647694650 ∷ 841442934402206679897148949
    ∷ 77699876393160902731877139333 ∷ 37790129822015510651243873592 ∷ 46347668542522885612272879293
    ∷ 51404729677056576025412328634 ∷ 1666868724516227080962685360 ∷ 66818492567183191680688790762
    ∷ 29432232002234065311614160957 ∷ 30914222964349133147683895710 ∷ 227506404776063190631425254
    ∷ 544473658836145454472430408 ∷ 73184512875230628230772774097 ∷ 51625260716241384434632060259
    ∷ 70951466147963691163867410339 ∷ 28992976575192972756622044394 ∷ 55139014018519029342823710791
    ∷ 66348849824566842119286870595 ∷ 60644293976403774483117881841 ∷ 69435328215109369727635891686
    ∷ 47676612316950938801740130165 ∷ 40366526833822284565907676242 ∷ 74935576272120019552695395317
    ∷ 28658126909828138115154595767 ∷ 70027340164760179231580654832 ∷ 49014656340576089072821739351
    ∷ 39898084991262390561036812932 ∷ 27399274068055524933774227122 ∷ 51048556095658004563872539016
    ∷ 66194231696655670009879737787 ∷ 50785210367656318602320444343 ∷ 25013494780432037491743901006
    ∷ 56684698567852380955627512191 ∷ 45430336464144610902435125796 ∷ 70756944902465187142352554759
    ∷ 27290987748940877313908898544 ∷ 47410764507114028757807742262 ∷ 78053615297739951986137346672
    ∷ 10141302233396136149962389980 ∷ 5084872372044627871772782955 ∷ 50652398675546674804728875610
    ∷ 61849496124249518700738444809 ∷ 738799611069405239942381615 ∷ 48428519369077517074974275326
    ∷ 75098437050634686178254763866 ∷ 40037565744804283816158702882 ∷ 23568295554122257338199832071
    ∷ 67533552898316022803720434030 ∷ 62213235185453755013804319344 ∷ 42462063088791655906166269305
    ∷ 6590844910162004291574801516 ∷ 71012650103442160991038743625 ∷ 47833346072366562965278204473
    ∷ 26425244842891672682502401943 ∷ 31599469724415561147060738023 ∷ 57597994081986790298521138955
    ∷ 63868265353456303212248553048 ∷ 26140024888300145625821888879 ∷ 36969984209676312241566143314
    ∷ 62619098196508107705830538442 ∷ 76394777233237413781632945963 ∷ 29856081255787135437454706249
    ∷ 33276594080201894138695597536 ∷ 59588251280823880941138038016 ∷ 64177684793821253447561491409
    ∷ 12843829003410394087972887692 ∷ 70906534080748721782654374854 ∷ 30819652044990146752887988927
    ∷ 52052496337441804555405305253 ∷ 71314728655439197594415231147 ∷ 35344804809790987255804239265
    ∷ 76900175341065235583337966944 ∷ 51317854778414708859109980581 ∷ 19130331723172049969219395713
    ∷ 65399305473538362458795255927 ∷ 73869770138691524244488243911 ∷ 52578269446758431130409111611
    ∷ 64668906012309515315602714172 ∷ 35621994722788478365156251413 ∷ 72732672706502536701810981792
    ∷ 24796087555958863036594640368 ∷ 21078826530592789072253242346 ∷ 36091709068449728270786811459
    ∷ 32408145836696883983668283290 ∷ 30332740854269137363849262759 ∷ 31012335738714856746548323041
    ∷ 41632523582648392877734314903 ∷ 59021858145909813537261855181 ∷ 66523384002071326343146077132
    ∷ 41305655475311234066213402910 ∷ 33501567961015461505281256922 ∷ 65860375872475520086754716130
    ∷ 24087347362221725165850600093 ∷ 73151062156004583966753697468 ∷ 50846643226520839142348200847
    ∷ 69708510526447770754334763520 ∷ 37237264284163711018875458370 ∷ 30309266349245826774667384483
    ∷ 12866529410387895397141607307 ∷ 53147834319433520009324908905 ∷ 39644200791012930661592963924
    ∷ 22355441790067261332522228595 ∷ 22097527431765050581684270754 ∷ 44047671804885723008233099956
    ∷ 16674151286429063765432686782 ∷ 25834532783275329812350059725 ∷ 48732300643428687385150725016
    ∷ 19145546691494040790137554343 ∷ 11392493072128439821623109354 ∷ 73718977532394783793339288846
    ∷ 6376649901910877760801736603 ∷ 51816071295664840316017741398 ∷ 49652982370970760593965771358
    ∷ 76780775301214938926584186531 ∷ 38686993381625134360857436721 ∷ 37143018214194526026949475532
    ∷ 75067555742090494285901733723 ∷ 39919755736615040017967028510 ∷ 18584300098930161572800250508
    ∷ []
