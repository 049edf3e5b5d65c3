-- ===== src/Png/Rows04.antt =====
-- Lines 452 to 601 of ututna/test_png.c, a row of twelve bytes as one number.
use Prim.Native.Nat.{ℕ}
use mathlib.Core.List.{List, [], ◌∷◌}

unfoldable pub rows_04 : List ℕ
rows_04 =
    76716644888083429608763900027 ∷ 48484876276715637745339178133 ∷ 938711041801930062726264220
    ∷ 31982236656431291372240555004 ∷ 65047613700228472867166321871 ∷ 66638339563265235899840786494
    ∷ 69011654452679377021747876771 ∷ 67752318711765529173682623077 ∷ 8456211896340730520480226040
    ∷ 45749648283445861687399763250 ∷ 29318201353926071742215874479 ∷ 40045428776097835200152625553
    ∷ 17305117563556508601097029238 ∷ 40258751677638994335827262404 ∷ 56427494583185054648114946939
    ∷ 20286924444294718100298488376 ∷ 1175931071405382513084900598 ∷ 17066365661862798524031630576
    ∷ 22042944303098323388541181717 ∷ 54227973279216006101579591650 ∷ 63835480572269067145372548848
    ∷ 25359710692186689954237859900 ∷ 34073831980753571502783898928 ∷ 16454282917929544145095724701
    ∷ 61846375202049941009634917315 ∷ 38779062645364410777494152321 ∷ 22503741669723915675420632785
    ∷ 62695611836107642506542437899 ∷ 33468577867680818469491586481 ∷ 66727474492779127126936427428
    ∷ 48224813572880941144617653333 ∷ 60962139027063454283939056621 ∷ 78449160366529631193610055955
    ∷ 74085808123405931311477041928 ∷ 8360321414358157434975602815 ∷ 18814728723219786509526103516
    ∷ 5103271360836148542492131362 ∷ 75769124936032418236314398678 ∷ 1175086246830917407060177475
    ∷ 23630866615999030585001163395 ∷ 25464152926092428322852483015 ∷ 17247328778873006066638752894
    ∷ 55056206001102367353941486795 ∷ 68990707205307766913257921238 ∷ 44384272575510241964486114704
    ∷ 6837624426947318869261794445 ∷ 75487152198489046816815797365 ∷ 72545744097365129499260980849
    ∷ 36066488299897170333388623915 ∷ 1959672227523584841763140358 ∷ 78295789829420820377816287799
    ∷ 60102725966509547348106892836 ∷ 25874993854042517328996702586 ∷ 61143807408102543914687389326
    ∷ 45572164931112647145395264041 ∷ 60264099516142900233379743740 ∷ 40306420906350591715944425856
    ∷ 78633838996219773100187194847 ∷ 61576599856545226628283167414 ∷ 18730264465931312757728605678
    ∷ 71692917876072321446918550066 ∷ 75245614004399385921855128895 ∷ 40547952663597556668344300494
    ∷ 48270044126446374325600853884 ∷ 42103727816725216803924148791 ∷ 54450779347372641677792085881
    ∷ 52115580441925857824614136273 ∷ 64426553680439347952137965130 ∷ 31411773448425695094898798196
    ∷ 37402753288935958316717565493 ∷ 51235660036909856508637548221 ∷ 29565698262247673431389335551
    ∷ 73122019733464193333327344229 ∷ 21387808956708186287868492399 ∷ 34042708780080629237886532840
    ∷ 8145741877548872498822865751 ∷ 73684196471974560260040500626 ∷ 53899393370094686942689596108
    ∷ 60431670418342108931389061328 ∷ 1195310989535629989061219584 ∷ 68387086824013973497277310515
    ∷ 39298415789798287567278803440 ∷ 25211902121782797308828316121 ∷ 57926617859931938330136686053
    ∷ 74511281581781134953361756835 ∷ 65754230159984364217033218283 ∷ 72642536418204178224269399155
    ∷ 53362561423565936823036858431 ∷ 65469633425099462752540073099 ∷ 78628322384801266896301992533
    ∷ 32771955253565430484045907072 ∷ 75839619293305276979316493837 ∷ 17330939438019484752578616190
    ∷ 70847255589284198366761236673 ∷ 35270441481143216242332196863 ∷ 38916022925646182518994631660
    ∷ 50784646895187049684413365354 ∷ 69114425504203454009422506422 ∷ 78255022051131983752988317074
    ∷ 45923453689154167669581591081 ∷ 66218073461357822141917935175 ∷ 47517729962516818579860770791
    ∷ 65063054090612266117977504309 ∷ 67148575867297240510364377 ∷ 74877743768542905116173224171
    ∷ 15286827775373325851332184755 ∷ 16231680554157144012483506985 ∷ 43912340819673911567978113026
    ∷ 69410206114665101477726876866 ∷ 44333467212602292155662357405 ∷ 64812176877383714386503931948
    ∷ 52536904770850539465554033210 ∷ 13214833761153449941556482342 ∷ 6894104124549019580594551897
    ∷ 4969927665408510895527171417 ∷ 35454921593631791550009620435 ∷ 48942579605917765386199506146
    ∷ 71016666743918125924407122705 ∷ 74147771645166352087823790795 ∷ 77431455357224379538353005397
    ∷ 48311036401181549751565244517 ∷ 59592247054732311438473150457 ∷ 36602157371127076870731411651
    ∷ 24899268605890372675690822945 ∷ 78389633393034320794994266550 ∷ 56172567516408211600691750610
    ∷ 62253022310048685922606103562 ∷ 30901765983510097849768315820 ∷ 9224034695507218288160065908
    ∷ 25060032046353080209086431905 ∷ 57795254135568598848754666225 ∷ 51378418837562824140934369749
    ∷ 18546174159028732867692033182 ∷ 40207658381121966695100253865 ∷ 7438181459378775756221057151
    ∷ 75492379084147493564663403319 ∷ 54450933375598607575987440538 ∷ 68242821081362480076559564118
    ∷ 32115023676588141070585451839 ∷ 25924863846742515149840360472 ∷ 35447551606670746680023270999
    ∷ 16603487222082502909667089473 ∷ 51524054464271902211309420853 ∷ 26975890722726497631018753430
    ∷ 7373539190125964658488399141 ∷ 64886148129680329065083832168 ∷ 53695488725497638329639651275
    ∷ 38128361248759598404571135855 ∷ 60814269345375493733540216554 ∷ 6110219540754338393673170638
    ∷ []
