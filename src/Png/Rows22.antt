-- ===== src/Png/Rows22.antt =====
-- Lines 3152 to 3301 of ututna/test_png.c, a row of twelve bytes as one number.
use Prim.Native.Nat.{ℕ}
use mathlib.Core.List.{List, [], ◌∷◌}

unfoldable pub rows_22 : List ℕ
rows_22 =
    78005796995384164747654528975 ∷ 66235343502093151589924425718 ∷ 48001939670016520179636701263
    ∷ 69175706505870488788401729593 ∷ 10040035792533715646590655559 ∷ 25463272511856628454383418217
    ∷ 3037291118981972595432008143 ∷ 11129994166678593401342458743 ∷ 10380200461513421415618460910
    ∷ 19549471877670041764403255839 ∷ 76630305009625763034815052315 ∷ 14614748561547224031952796239
    ∷ 60292787903605354499352363862 ∷ 73636947798854292563339564472 ∷ 46815937140073793514002502015
    ∷ 34729978135762025157001163688 ∷ 72650417756842712724426046703 ∷ 56478992011009056145914280951
    ∷ 70492290719311958593872566077 ∷ 14092329855642581288305587202 ∷ 25385995007876601537678199567
    ∷ 65134857445746143761242243060 ∷ 17055341052816917779000040511 ∷ 60189996638110459682985597086
    ∷ 10150068019081173706352625152 ∷ 6809291479718174316635446192 ∷ 15326859976589174630303403162
    ∷ 75516762181798727306420351512 ∷ 50799491310704967301284781067 ∷ 36975422329811631938141587093
    ∷ 49182846364539898097200173992 ∷ 54265035033604486850001494296 ∷ 49008069203193604278708599580
    ∷ 32399212417057817572614957339 ∷ 35052210404001540847213144773 ∷ 19232884246910840480952263637
    ∷ 21226630060554092336471784758 ∷ 28980842386204642360558877363 ∷ 3923240138831015216949981536
    ∷ 7401146654258825387718933263 ∷ 30004100165391982650160433935 ∷ 69903986551635268353257046527
    ∷ 78039441614173173558135707724 ∷ 54928002314808338567243581586 ∷ 46326245992774383380758798637
    ∷ 39524895800936126108640996162 ∷ 47266270883267839707668221716 ∷ 56372176017887077150808926023
    ∷ 77773890345861602093718112639 ∷ 78044155239203779406497534101 ∷ 2717398203215773826963300273
    ∷ 58906975368963274014612761330 ∷ 71714687967241088671772578441 ∷ 60818073188723501048564767000
    ∷ 47244252891357779129030743189 ∷ 3781276216648067088876960427 ∷ 13023492511364754936611748238
    ∷ 74040652447388181089280429361 ∷ 42558221690878424706235920945 ∷ 14873491746928796807390727206
    ∷ 47137764451788785059940334195 ∷ 15496221986162897101145651457 ∷ 284460368635748601879396264
    ∷ 60904658944395692581145429373 ∷ 29747186557841022890975402392 ∷ 14508787447093633294515293857
    ∷ 19276304266332199587896339476 ∷ 16318816590254379635344169440 ∷ 70973128517055188315511694750
    ∷ 66565906117198815385818751011 ∷ 64146899718501842521028792344 ∷ 33171360415141827719514517243
    ∷ 25957531181884653308069062264 ∷ 69147951905048019546132287518 ∷ 12000943772272726593683854075
    ∷ 28154479729115916910808977222 ∷ 59559922451327318326022282727 ∷ 22723619351882506310926054878
    ∷ 66266092574462766393349628351 ∷ 19511242852596816414418668656 ∷ 29949621800245768625576042044
    ∷ 39946622706670493959232219959 ∷ 20286782893855145638799396358 ∷ 78243214109928503156355923009
    ∷ 43470008097765934188625865212 ∷ 67349220393877812628843774059 ∷ 7746092886833668941855203948
    ∷ 24739949154278817724285997334 ∷ 37400710716105756114488773885 ∷ 66602556834885387395317304366
    ∷ 67940351451452268235925589606 ∷ 53293739420663325130958058364 ∷ 76846865618604382192255658783
    ∷ 42065444934865719268962553417 ∷ 74421487684125171559292743408 ∷ 55498877961414497351574780407
    ∷ 36209850058094361237601519407 ∷ 18590120752019121648132535811 ∷ 7502318669951087278534457867
    ∷ 74275490762047754767516000257 ∷ 54583380498103123945445614124 ∷ 61308430336262821295831060955
    ∷ 5798480506940853338201667276 ∷ 65914626391976487146813804623 ∷ 74795975743928595384747430442
    ∷ 7622101708252563043500737137 ∷ 21066777561470564440255474421 ∷ 955055733320831577827847206
    ∷ 38514196510686989470145584323 ∷ 61165677439248903156068684893 ∷ 43302561968158245295444707213
    ∷ 69600322676247214323946864989 ∷ 24633307153482819889041092607 ∷ 67019900385887996547837396416
    ∷ 18188728280028393928584350640 ∷ 43273816575981592192739619133 ∷ 15294706076136699705370432704
    ∷ 736225838094261716041568199 ∷ 21204800069294454770102703798 ∷ 11906526310868163816159862366
    ∷ 67294995114414346413433806006 ∷ 7368681515756859961052097767 ∷ 2512616725311055856237889580
    ∷ 17002945960916553923160309995 ∷ 9143322555821618306024687280 ∷ 58652743446822204746664256022
    ∷ 57085613699895143706951974766 ∷ 60352802511325737458839314393 ∷ 43720664956396780499694157101
    ∷ 48949132699210423886668674308 ∷ 51355835998021807172602661987 ∷ 336082623294931250012453070
    ∷ 6978851183544616706347711238 ∷ 271536399935757828952304126 ∷ 72553516643339312025900883506
    ∷ 23703336502267347453165333730 ∷ 66314213111760980129974088732 ∷ 12115857819672674582685531302
    ∷ 70273050067171672700482309920 ∷ 46491032655778710631691792583 ∷ 26505127523600161205901888653
    ∷ 68057586332963135208676136640 ∷ 54743278058267287966527373391 ∷ 73029100321331941702012865479
    ∷ 74455559499935923756475929246 ∷ 60360561153692493528099950211 ∷ 5059111073855763604998463936
    ∷ 76139126198538275677219258430 ∷ 59831535803971648410057383823 ∷ 69085387728160609932192457450
    ∷ []
