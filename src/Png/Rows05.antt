-- ===== src/Png/Rows05.antt =====
-- Lines 602 to 751 of ututna/test_png.c, a row of twelve bytes as one number.
use Prim.Native.Nat.{ℕ}
use mathlib.Core.List.{List, [], ◌∷◌}

unfoldable pub rows_05 : List ℕ
rows_05 =
    78543830202882100634926208043 ∷ 12772020645958873354825562513 ∷ 15602726075314967143715918229
    ∷ 59200175954545935120525205842 ∷ 25454254803727127463190141462 ∷ 31097776313082121716536949592
    ∷ 59282961112544008537146078862 ∷ 48937463298192690493340689583 ∷ 70140255840489909830450440613
    ∷ 69173094167021708431362157148 ∷ 76612773140023338834437950596 ∷ 5670905522708723201200851234
    ∷ 72816401908324759597108789546 ∷ 5915840680629283841657323379 ∷ 19738468710276965288068432838
    ∷ 39652150163523645400361295694 ∷ 62344183277600887778509680757 ∷ 75026326115776056594102981604
    ∷ 15020777831979573050373251685 ∷ 31425932455546196768269842480 ∷ 28735796580378770977484200763
    ∷ 44352570094131282750328162098 ∷ 76163786761314369906321292330 ∷ 49764337034560243888363210121
    ∷ 76886218386066390647499523005 ∷ 76258677978508280652617446573 ∷ 29355437413291217233802808314
    ∷ 42650068283256951296861592260 ∷ 55751182643971673768836725848 ∷ 43342384014619310162423726613
    ∷ 66587849513155454994217057 ∷ 63849115687684978347299746496 ∷ 21074518139355496338596625705
    ∷ 12314434679741464299967613115 ∷ 23391075230195770016350762662 ∷ 18982583184397059516637842591
    ∷ 30705636321380627618270529256 ∷ 67707939675737925103355721352 ∷ 16312316420616884298549642562
    ∷ 55549076402971398047040908755 ∷ 50311002989769903932665400818 ∷ 36616422888024583649538530536
    ∷ 75716497145931079379837754893 ∷ 60657617892575809205924970649 ∷ 15242127016320323125235988770
    ∷ 34097548416096356395903931559 ∷ 48883289759185805864905817009 ∷ 46670333888755996814862764150
    ∷ 6256541664267955519567280414 ∷ 50719155724954848176823721422 ∷ 21304829196635322413770417901
    ∷ 11406751244930672589695250747 ∷ 60479807305460083685277803815 ∷ 59641553595442373167355892333
    ∷ 9737511972319429004911164013 ∷ 8341077159367856002561043813 ∷ 47335463248278033263666570270
    ∷ 3382494398214488167473515303 ∷ 37130227448936745798403038880 ∷ 70183286873126190968416978839
    ∷ 74467865913228354271197490244 ∷ 50891921457512752226509872164 ∷ 31464755667913582249949272215
    ∷ 20526459027197445144949905138 ∷ 15622679886300378604561968011 ∷ 1658325594569132279735342754
    ∷ 52033821820843445481751267777 ∷ 16855015579469221107743758029 ∷ 78044367144859151874836012560
    ∷ 26639678811558992927086301172 ∷ 25896734643149091975101104875 ∷ 43414125235424090583449745629
    ∷ 29654488579119090549825668737 ∷ 64198726102599563179622850256 ∷ 8366168088746229056842447166
    ∷ 39603735109902836144242508127 ∷ 62146985706517622299251710778 ∷ 30586989525235873648323090907
    ∷ 30235374517303745915961613496 ∷ 21278443495545710503501612438 ∷ 55896007837497289695099890543
    ∷ 11322480199692932920263168328 ∷ 45320713962225151578463887648 ∷ 62505902819014284867713178953
    ∷ 64596670880811079584946589159 ∷ 33901333159680905563837956364 ∷ 63262201813291903886343881793
    ∷ 26031116026938490035305848119 ∷ 43890844918241487856987266768 ∷ 57717443423624858577800306622
    ∷ 48723620759510350525197144078 ∷ 69921300693489833330011127635 ∷ 55305373555911302254006332272
    ∷ 38331392093633575161431670955 ∷ 22488861409789943957149322591 ∷ 20955341274205988267622593475
    ∷ 29212915126368845145850035805 ∷ 56903413428355142132681909081 ∷ 15305119002299899750655060340
    ∷ 31354430222815867846124656687 ∷ 46913384419962594521394294317 ∷ 43464876218797980747276348252
    ∷ 57296719245083005436764824846 ∷ 31345266123674232966938031433 ∷ 24348901857485845159906046575
    ∷ 59194778667436575590563548899 ∷ 35104409931794322900584859337 ∷ 10903201553749324882164685603
    ∷ 35603713175434185872392899038 ∷ 24337717612618369357322241307 ∷ 42464020864129741975481277047
    ∷ 43628141409644954976710729200 ∷ 27829396783237727626202807350 ∷ 69528572084868609788283114806
    ∷ 53113768773754431861548710702 ∷ 12338202290664192613485634846 ∷ 14364962186795296814818485940
    ∷ 71783978659420947568465622773 ∷ 9291479392852476409276674554 ∷ 78565839339436913045879975736
    ∷ 59054593251351249267873233073 ∷ 60774491081893174927594308474 ∷ 65442094562312913369622110196
    ∷ 50989212907908469272825259478 ∷ 40081569333152896131991391897 ∷ 15677139072322706006958059081
    ∷ 45964500710071845982689581236 ∷ 17795846572785284988451925301 ∷ 18285357964468703459177163000
    ∷ 33679230003481782958090738072 ∷ 76205182737020698851460575063 ∷ 78322877505416226958098212008
    ∷ 45577327280936008131459785673 ∷ 19281511043928201021915061872 ∷ 38927232650251427174806735200
    ∷ 77875866846832927925681723153 ∷ 78873471335893701090710520506 ∷ 43987902706462149971198668663
    ∷ 69086239364097478300187149746 ∷ 45283819140353105440141754043 ∷ 70855814865247678349702620027
    ∷ 72366875236726210623542340853 ∷ 8032986040985107316522543383 ∷ 67525544200079238981525658733
    ∷ 60609043344589885232633429502 ∷ 10052575464819547057027130213 ∷ 66445263757454176309309839203
    ∷ 66382732982829894135572524176 ∷ 54563559136588593371634242852 ∷ 64858402472369483798027994148
    ∷ []
