-- ===== src/Png/Rows16.antt =====
-- Lines 2252 to 2401 of ututna/test_png.c, a row of twelve bytes as one number.
use Prim.Native.Nat.{ℕ}
use mathlib.Core.List.{List, [], ◌∷◌}

unfoldable pub rows_16 : List ℕ
rows_16 =
    13619493226966280577563122512 ∷ 62672513169709860150665207495 ∷ 21591990938365780525461501535
    ∷ 35893027764051128046630468931 ∷ 66112407995682689875998205252 ∷ 28446852158386696496279036460
    ∷ 76471230497543853741227043192 ∷ 35156690300994614732094986219 ∷ 71311092153437719377056542610
    ∷ 57955642204876538673567975440 ∷ 56343895085167017125636895326 ∷ 72458795565767962097242007096
    ∷ 55193364428542001888337417039 ∷ 35995443228416507693663681659 ∷ 1330859234271022788014338372
    ∷ 25549965457190755411995144507 ∷ 20546024571911573687424553364 ∷ 55949779650335714223654585731
    ∷ 46221605940956085011709786528 ∷ 27231453205711668798351647282 ∷ 53252127432676963663227779988
    ∷ 74561432212611532396515106356 ∷ 44663278762917992859888657112 ∷ 59633227160838573797443238639
    ∷ 65753338941191061486924430614 ∷ 73618328156495994635079819316 ∷ 4291738932701113859359822117
    ∷ 30508968209974906726896930296 ∷ 54082610547525031861944773470 ∷ 71074007651961807646673106972
    ∷ 22442056911529330816736958479 ∷ 16534812464650332051756961832 ∷ 12538166687785006591320391777
    ∷ 38307537111071460702761313395 ∷ 36144238696784046854788897095 ∷ 49190633224070741613059898765
    ∷ 36615893170707079784378356020 ∷ 4613499707255709320369735730 ∷ 73386894387018385711021799519
    ∷ 17852949340956611287921549410 ∷ 71315100205533094556568027642 ∷ 39368229850463720592443862260
    ∷ 68775154068704139072061134817 ∷ 11539156744884248093343916537 ∷ 18066637268025963988871794763
    ∷ 65588038794492051274000253153 ∷ 65338458771126156152070609264 ∷ 6949094680795178825239015909
    ∷ 68942020232337535788464223960 ∷ 63272235180427085186750602139 ∷ 11372416135804371191060482487
    ∷ 12212601632545065999850640379 ∷ 43471246508935128106723373633 ∷ 60900459494185763805445032020
    ∷ 39274903394110248720854070630 ∷ 13969613204379163521046438037 ∷ 69983029410010741359449746097
    ∷ 54573798243661480028559268210 ∷ 32056871403122703757391580692 ∷ 777656322595985263837547549
    ∷ 25665327346485929826938021529 ∷ 24587905659028433016488810556 ∷ 16116438974366601883027398171
    ∷ 55179832337892916007252265580 ∷ 47485034138326824589989039656 ∷ 33439421568837491568854270614
    ∷ 73912346263702676419361549863 ∷ 1664723919419862285768649169 ∷ 62506388246797694096023561471
    ∷ 6280491292810070612871950425 ∷ 16960410022830031292828945900 ∷ 37495172789591618130526308707
    ∷ 45845126053429803201207095613 ∷ 27944037318525616139843457606 ∷ 30077052410715614975703388798
    ∷ 27943773245850000552439058982 ∷ 71875742337256227223071263318 ∷ 42833347773130245743099663506
    ∷ 24771388444131131328509473573 ∷ 12728431883929312387792404945 ∷ 45254163717129585235562167039
    ∷ 65640333343731608125261826893 ∷ 1072873452825084631458766128 ∷ 32591012204404031858779535796
    ∷ 45594151862745998317115982586 ∷ 18856256139643882390204478118 ∷ 53831942929081245292959502848
    ∷ 21849537126542447773604242461 ∷ 44373389539000272279728353939 ∷ 25872966915261417394993709289
    ∷ 7058780933495348327042086478 ∷ 32508585295354377830771102360 ∷ 28797162830806098053731424134
    ∷ 54658127120100898184100597414 ∷ 22383956994653394507880824852 ∷ 66719060305952701993021226638
    ∷ 52778299210165960656581726792 ∷ 1443651537479599479206154769 ∷ 25727485810026214093962031963
    ∷ 48880767395342469942451539524 ∷ 27365360579699497096115687062 ∷ 73325660860790319677848568105
    ∷ 60718651956765102523119949122 ∷ 58774372559892418858410664985 ∷ 10678759155874271163148695660
    ∷ 35761787169749391328760063910 ∷ 44615769040896133546608568576 ∷ 63237713260740610190345923758
    ∷ 31884236206569275106324418275 ∷ 57910100070212012529690553109 ∷ 44566269552386985608222562713
    ∷ 69678290706634126166996970522 ∷ 45493164154633818055458287256 ∷ 60626910151747605677404347744
    ∷ 67806855914328900761465089855 ∷ 70785930570312887556406177197 ∷ 57615486292671015607676390833
    ∷ 5017790229625934445227694903 ∷ 36442131438838579195917059834 ∷ 25672801616636530573273320077
    ∷ 30795878847573412578707865527 ∷ 5039155078392311230569405062 ∷ 71395769619400759713063526319
    ∷ 73393115667470024479323502132 ∷ 39378657232915616473748748868 ∷ 5534483819818368240296700410
    ∷ 7820732775841929792311545935 ∷ 63540702587392518276648126866 ∷ 56915673183196838971698848137
    ∷ 10058671496003139710584590074 ∷ 15028232717382329027108816825 ∷ 74391691748295737910580106627
    ∷ 12527981161417493749581705395 ∷ 78284038585812924032354403303 ∷ 546897564533507258563642746
    ∷ 35294076545200435237369856621 ∷ 70940904793388296505643830616 ∷ 60981649168336619762851301190
    ∷ 46293518866349764774217730094 ∷ 48744706349092821797146724600 ∷ 22962953072871567534140513460
    ∷ 46638482171352527652948371699 ∷ 26396687977759702520715939251 ∷ 24066680246522678014087135344
    ∷ 57078446390926854729264030440 ∷ 48487150834797937353142370324 ∷ 61368405834018374548079438504
    ∷ 13438348734726497935006908962 ∷ 10258463592447564851715552724 ∷ 37308992125989113973385512034
    ∷ []
