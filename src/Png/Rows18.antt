-- ===== src/Png/Rows18.antt =====
-- Lines 2552 to 2701 of ututna/test_png.c, a row of twelve bytes as one number.
use Prim.Native.Nat.{ℕ}
use mathlib.Core.List.{List, [], ◌∷◌}

unfoldable pub rows_18 : List ℕ
rows_18 =
    20895270804334981820252910871 ∷ 71963149488777374657588568724 ∷ 43667877933851376374544864344
    ∷ 19687476212574331499460167142 ∷ 69583539748032455432796837440 ∷ 12412290037372274026337056512
    ∷ 39795468165420900048402661508 ∷ 973846264728773594359421778 ∷ 35631454009343319601586439041
    ∷ 19876029497502310715120831296 ∷ 4653528105876310931293257762 ∷ 35067361092464371629652018329
    ∷ 67132564021653274457084986272 ∷ 34694475011591267899698173756 ∷ 67214727957069135408684019036
    ∷ 43100096238298911382928725041 ∷ 34862321629519774144893569541 ∷ 4101703448212929826794010088
    ∷ 72984994255904309923835654812 ∷ 60556190923101339237085285838 ∷ 49293251715415289020361941257
    ∷ 40771263150314892219115472300 ∷ 8442534130817836490276877371 ∷ 8404561854832765514677959157
    ∷ 59135099771099804796252730403 ∷ 51505496113910097441095448097 ∷ 53281488064557195475680392377
    ∷ 2497424980261150557049410705 ∷ 54316419639050999627696894758 ∷ 7479643147572322937241747923
    ∷ 5422516619907352406084267363 ∷ 34397665155113221903315886104 ∷ 54889294930983517798910939544
    ∷ 2662825775165798909484158958 ∷ 700188356232790328784559007 ∷ 17082560986053505903529261505
    ∷ 5623725148549372360253271734 ∷ 53787043695260061206733495553 ∷ 49785082219013497431716986579
    ∷ 36219780625663728376152288227 ∷ 28546980995318552718343190388 ∷ 61158890831702014894489546700
    ∷ 63588223191453486016395836741 ∷ 43815023198744344102585060623 ∷ 50694804273054990535000605803
    ∷ 48911788593070855529172226873 ∷ 22490738097304749877756443759 ∷ 73776341012712847148575622644
    ∷ 3501557146036528408233493064 ∷ 46757591885679030942060807534 ∷ 8833152323120381909137900426
    ∷ 51092064994667726331138259381 ∷ 3880259941000891913711525657 ∷ 50379530910591191239669907693
    ∷ 1490063852836051626541257804 ∷ 4407791378716007175010628587 ∷ 68014323908563766215985094221
    ∷ 61027166392786022226510941912 ∷ 46503667734576133572837740208 ∷ 29871059640483233082182375686
    ∷ 15644227507429236779018261475 ∷ 61301139524473349234692158087 ∷ 6205472305109787223183411604
    ∷ 9082241791728960437877751587 ∷ 57404745829064102344678573119 ∷ 6538357317570014555678148785
    ∷ 11247847975711523678711348853 ∷ 34519737101869430649587588437 ∷ 68372167343369892908335313508
    ∷ 77393392109979475187840195028 ∷ 32380833857375268664432969813 ∷ 78545618183698451628459495846
    ∷ 23374314973079418823258599568 ∷ 64391593878697810426823012725 ∷ 64407051402728704858820681877
    ∷ 20126862160910333848785831443 ∷ 63107050271754791492938147956 ∷ 40033905167035228576642373667
    ∷ 50626218217733155689813354599 ∷ 61921512432562550230042586162 ∷ 21798769403754007329163825003
    ∷ 57460540332515448815300155163 ∷ 21968303297331574136801079009 ∷ 66134868599162112206345473010
    ∷ 70818084488793593766026446337 ∷ 32187049887302955920182150923 ∷ 39824742133672863066992012089
    ∷ 74036455701206629754698002405 ∷ 74520701462340164781095265341 ∷ 43233648950379951449058250798
    ∷ 39904250080522915458028868064 ∷ 53031694074828152188577856731 ∷ 3305467130946446077518189152
    ∷ 16153172487622913957685490693 ∷ 69814528599072398094853522962 ∷ 70529379958896681095812350565
    ∷ 29563669369525149665462125857 ∷ 44803727306660038577986624915 ∷ 77092048539449389064333165008
    ∷ 23768905852016397984688929197 ∷ 7788264697463884208268681726 ∷ 49125068031868173209781195630
    ∷ 38748363160908008324797134648 ∷ 4058854112058729915098217933 ∷ 60012564450908690661888680802
    ∷ 5738225722611370844528815047 ∷ 27300229777622251190787844836 ∷ 50797684516767950467905624908
    ∷ 57721684230877959505731968605 ∷ 65662829508654950459879316008 ∷ 26860170412251475701745605872
    ∷ 26242221043525622861186942513 ∷ 65693998738342043307279543826 ∷ 20989222067298660082738840872
    ∷ 6168679565521544498898496303 ∷ 22054515691827899584923356957 ∷ 45729830956904476648124115428
    ∷ 61104501007804547186274342992 ∷ 12463460970348397507961592694 ∷ 78010850378790166630977908911
    ∷ 14881885108509151776840262785 ∷ 49908396032733685178294219329 ∷ 28215146068226112694646052632
    ∷ 35821373064882021963921843845 ∷ 47643795678891057286986059673 ∷ 41510604751162052271680839942
    ∷ 63133605094362009573805095309 ∷ 52872075642861323919078988334 ∷ 2950680459002735152311833911
    ∷ 76653352030610469657019753082 ∷ 25089967285275706540427362259 ∷ 63474833990751553929680713741
    ∷ 48335620785707860242113582145 ∷ 31384496284081569966301606502 ∷ 52193742169140266966046312842
    ∷ 29099149517063544699363888553 ∷ 17836586481785082288442808130 ∷ 46618381455721604400449442906
    ∷ 21814208896581861445881337505 ∷ 47653460805921158792660988852 ∷ 51219781414230345700547690400
    ∷ 194139467473046589027759237 ∷ 77262492193786331583465794978 ∷ 17489871558106194829054530143
    ∷ 50149150092118423770498224024 ∷ 76679165136443976156640250827 ∷ 43455538723487753877606544018
    ∷ 50494371586684284539656271376 ∷ 18546858394024807389179454283 ∷ 54475937412963602946357334840
    ∷ []
