-- ===== src/Png/Rows10.antt =====
-- Lines 1352 to 1501 of ututna/test_png.c, a row of twelve bytes as one number.
use Prim.Native.Nat.{ℕ}
use mathlib.Core.List.{List, [], ◌∷◌}

unfoldable pub rows_10 : List ℕ
rows_10 =
    25999085828185231246903408636 ∷ 48278501787284969314534299377 ∷ 51747591391698268827589518840
    ∷ 36109330648151277675477252437 ∷ 78947298936936266137790468738 ∷ 38958329783944267048642432472
    ∷ 68364614402917640803027576802 ∷ 16864248847031627099470133685 ∷ 53268329477712228643017103792
    ∷ 17294860626436206096821800315 ∷ 51475074063911290050356982827 ∷ 9520176499438555387252467103
    ∷ 78330966667382674215010045794 ∷ 66700082677144603120688651858 ∷ 41052646551809606188482785687
    ∷ 58543419663260163699729514122 ∷ 63613511503783235183950600416 ∷ 26713790408049686105253470936
    ∷ 8960266545458159771700381663 ∷ 69668617429209854411944280776 ∷ 36828716759056496257639095196
    ∷ 67325736610171927204395933359 ∷ 63850670161663952816283489234 ∷ 16011467414399627337017019113
    ∷ 21404218388306777021755489362 ∷ 13416021085206343621147563247 ∷ 57377535935957455979890429957
    ∷ 59512408771189055670462964107 ∷ 41356927644743742686403815472 ∷ 76649390904606015600765350097
    ∷ 17422641294104991463731460109 ∷ 24857674779078810159800248516 ∷ 735290861511913464683697284
    ∷ 51140345012548048366881261066 ∷ 9563926464853517087959390901 ∷ 2725765236451894477032208919
    ∷ 53319834668357100756788200288 ∷ 16837235526557961341432204807 ∷ 30147062986991373996891809099
    ∷ 61611066831238565672433222997 ∷ 71565216122243355703001559946 ∷ 27657418264670472835673424998
    ∷ 16081614283392683143877577725 ∷ 50772036141073820825704847297 ∷ 332506966844130271073484761
    ∷ 52314507219837981931475160987 ∷ 33844325630760168091738052949 ∷ 18719239045340863916041262193
    ∷ 4120046359952589025835417854 ∷ 65576298327190422860561300775 ∷ 53004116817757580060133385520
    ∷ 68824908850484212780236924106 ∷ 16187121475028927296472081552 ∷ 40333333852532930877246520212
    ∷ 62022891049466695317586175656 ∷ 24818385747864308858588237405 ∷ 52287999658324775101680164297
    ∷ 62634332725625875352736178412 ∷ 24310524320541657066847946404 ∷ 51433764092418735853378542236
    ∷ 54533152513890223070863464865 ∷ 60312097132573317136360953055 ∷ 7308215941990585788989491190
    ∷ 41053351910710242962111059147 ∷ 37831717358746350836604112049 ∷ 48593952356711668834034371256
    ∷ 10053098774791266625616581889 ∷ 61243280956856992966062563683 ∷ 39198561925711567986048723820
    ∷ 3917792235546059114316394304 ∷ 41095308749157955720250115376 ∷ 17574822965712057786257270221
    ∷ 71977227583271863276984181884 ∷ 31081642759098321211200908943 ∷ 30159431224512199420413729744
    ∷ 23597882677956478373080743200 ∷ 47942652206036570698777082482 ∷ 54062650723758092576649190281
    ∷ 67225663227196098270807475170 ∷ 62577896589732345980982429197 ∷ 63968193226907524343589227859
    ∷ 36662747555075722418572325132 ∷ 16276536934785703388087679294 ∷ 62297389716648218932919893222
    ∷ 48080616279389051868720888392 ∷ 73138959761920174554276051726 ∷ 39873909482061065356412456457
    ∷ 49245866115008018444482495581 ∷ 35692332696923207163756199975 ∷ 48953544220091271519658051835
    ∷ 54812717200944831329456717153 ∷ 37700173130961195187583202875 ∷ 51099880251979335096801416776
    ∷ 43115533168922945728190760690 ∷ 67203325241567271167448602018 ∷ 33880296847133819274211883574
    ∷ 75166778159029208302987791772 ∷ 27191340362598457198714506018 ∷ 62823667627724824336128827816
    ∷ 52718714896506862703215530594 ∷ 65669249755380117803040852063 ∷ 18936666320231105069632635484
    ∷ 55686359481622995215118584022 ∷ 57342766036597285631325709117 ∷ 60467146791435424398219904043
    ∷ 46756522200690804166803537671 ∷ 74458515479852090079529844166 ∷ 76843742602142815352961292479
    ∷ 17341439633725717262183953226 ∷ 63060781812284598914236708325 ∷ 18763294879849924976722580169
    ∷ 73562716631405547645265803784 ∷ 17942465971139320166704067933 ∷ 22898103838160316373136067274
    ∷ 38132383128028578436920264313 ∷ 18133187328290229111950474682 ∷ 69192401966365184848784420254
    ∷ 22904684236700928065940838132 ∷ 51930569752447347149701159335 ∷ 10230580873756278155174747187
    ∷ 8056563780162187046676608546 ∷ 28562313335199955077174219182 ∷ 75795279052276954223918496704
    ∷ 76881579435954939970940776763 ∷ 64488005327604832034664945761 ∷ 64923883906691080014622861865
    ∷ 56098669553973710578040856396 ∷ 6435823051031121992222305865 ∷ 71002193484515314140030581309
    ∷ 67048646753211359387382854330 ∷ 46621592318433175926167362362 ∷ 37831494426436141384979556935
    ∷ 1153519858709785851918273849 ∷ 41545059734039127463174786357 ∷ 54882411049327140164360669756
    ∷ 68979477578579853613482552174 ∷ 2039579935550117948545167246 ∷ 73675729385809202434123346371
    ∷ 48159197312505032164602050436 ∷ 31900296686326617393946956836 ∷ 50279466619888984442610588414
    ∷ 34391276008412022400665920150 ∷ 75738741297102904208472110371 ∷ 58244695201534185767920753378
    ∷ 58560156250788788859790769565 ∷ 47408585682547974680380941285 ∷ 30632483725902034501047602390
    ∷ 25143019139710269206109722867 ∷ 7111686491898300171245215963 ∷ 9681306547176867047684231658
    ∷ []
