-- ===== src/Png/Rows17.antt =====
-- Lines 2402 to 2551 of ututna/test_png.c, a row of twelve bytes as one number.
use Prim.Native.Nat.{ℕ}
use mathlib.Core.List.{List, [], ◌∷◌}

unfoldable pub rows_17 : List ℕ
rows_17 =
    5930124860443907766290771333 ∷ 13874621019135136261254325155 ∷ 11605180034754058820774026451
    ∷ 77947893930535578113983141019 ∷ 47176671937438505278207800521 ∷ 41022117481503183122752709266
    ∷ 37900853892423660820476338111 ∷ 28704767424984639779465035844 ∷ 34962045046097385157422090874
    ∷ 26861084698430012886181210133 ∷ 37689971908847294846711738334 ∷ 47606921883102599601450373145
    ∷ 2570178227409905279578820720 ∷ 34171879260686967771705685543 ∷ 54325392483778709117502571402
    ∷ 29666958380295421601729107093 ∷ 69277996474059767867349116648 ∷ 10463167434154353219476317308
    ∷ 68596969375207069560696801571 ∷ 5175868017261277955663641188 ∷ 36082360416977773927260491816
    ∷ 12304154217889417323061516550 ∷ 19771718224781392981737035099 ∷ 68295981236271484508020688725
    ∷ 19897165887240681913066479490 ∷ 39184253550372295881685671423 ∷ 50390662116423016561381311706
    ∷ 36829898031307750315608325482 ∷ 12127999635772965470905130208 ∷ 11227669238084592129812990545
    ∷ 30549477802274737995684785840 ∷ 54783682699750514313838750315 ∷ 5020472376027652330606334342
    ∷ 43189546004543497321838676167 ∷ 2761694984679309212672712689 ∷ 50918536448466734274635279361
    ∷ 52313070775848072298123456422 ∷ 21862333161982151519952294227 ∷ 5970512618073976045750583925
    ∷ 1780355068167846890517354081 ∷ 9226694268955989922040954534 ∷ 34772806079103723015463485626
    ∷ 43526226568368415412298734090 ∷ 22467257536377492918754756016 ∷ 55177960357553491329584959039
    ∷ 73332247682603145406562195880 ∷ 34131386847873200975833209983 ∷ 77527563165762414343444302825
    ∷ 46138734665976804765020071797 ∷ 51197164542557919229413812124 ∷ 7205474212760400921407787400
    ∷ 43826019920855900131329008896 ∷ 32249954482499186067249279835 ∷ 78535964743256399241232386407
    ∷ 46185439573418794258330687259 ∷ 47858401092479788478116418434 ∷ 35682788284188770007529923184
    ∷ 29769098253416135888182402481 ∷ 27545001896974174278924367551 ∷ 22935737338365859981283347596
    ∷ 50569389628825370423736033687 ∷ 46538690699006166563647988356 ∷ 71224251596880800374110817314
    ∷ 32030530092185158261273870264 ∷ 29158375533116053077038893194 ∷ 51390836021301543592666783377
    ∷ 2220377819150892339488343947 ∷ 23369076942112246039223469269 ∷ 42873645207244886821103961641
    ∷ 14589451751162128293517921289 ∷ 6853326312979825371892679163 ∷ 8107462763672320140187369642
    ∷ 53544843778379172978579720253 ∷ 73945449552034875408358783674 ∷ 16320893464428620404912509947
    ∷ 28762087251825141017533963939 ∷ 64302651201330298450362582228 ∷ 53749832236994621868233148214
    ∷ 12773092673812301471992683332 ∷ 45904774671553281532412215985 ∷ 37344720515170076376154603560
    ∷ 14560797119386975889465651576 ∷ 38180788742510830198730533571 ∷ 35419492814445715319354859534
    ∷ 42690471909408710157016037934 ∷ 52928836157918635191251721 ∷ 13299278453507945637367317371
    ∷ 55528883677457219465730964609 ∷ 26593362286744139168597615660 ∷ 23738349125798817495182393346
    ∷ 49531996691109403234841417029 ∷ 15631658531824067301269954708 ∷ 14741624826578979062332286443
    ∷ 5909744938366256749984256520 ∷ 47136736592718891483155369792 ∷ 7656821984739453352301989684
    ∷ 70895386397756174104528803398 ∷ 43770194669929168459374298211 ∷ 72964173277716424796749741842
    ∷ 78626420987929880417559230552 ∷ 20659512930982809597545052672 ∷ 20158037163264140642378615820
    ∷ 78485887562994813581584908733 ∷ 66968329280585465322553004021 ∷ 21416375864803150143485566172
    ∷ 21844673477998897022177602320 ∷ 2594821032728945693554023223 ∷ 60114475172482444234170875526
    ∷ 43431269351783952636303468177 ∷ 3601058139684499915139326067 ∷ 32270423951039735183666028675
    ∷ 60626157135729734448102105102 ∷ 57273986059667565550893769722 ∷ 49558250612891931273350282816
    ∷ 55252076996290096736416673005 ∷ 47235248175769569562116503250 ∷ 20451983675769858183950785626
    ∷ 4815581364228396502397837272 ∷ 76155685522017613433911941024 ∷ 66240801665056759073391782585
    ∷ 9380657525966310437958112835 ∷ 10358228866447117422526798898 ∷ 73887169780990365747535585536
    ∷ 55897018724626666027416842246 ∷ 40140192766375143010201553360 ∷ 49651870053649414908007874571
    ∷ 39825341092535879856778488569 ∷ 47821603979681759699258816555 ∷ 18566466030063853498427572821
    ∷ 44213156709916546427278305172 ∷ 33380499253477901264721362208 ∷ 63293285690062736640751813635
    ∷ 20874613985662187436389618678 ∷ 34324558708172989396491067264 ∷ 4008050130052929387580718876
    ∷ 72902442596413658185997462855 ∷ 71350846586372617900193699652 ∷ 47427053015994986760212991626
    ∷ 28501892475267855562509455593 ∷ 66893249846672563596706151294 ∷ 2675837691626715861184744343
    ∷ 2558114172062271355255166194 ∷ 20077647572380406288606123540 ∷ 13098627451816036586252274454
    ∷ 112583891743114104864485180 ∷ 46118719548627336672738274708 ∷ 20239626061035467271965735439
    ∷ 54312143003930723792882821747 ∷ 23013495315792979346424115499 ∷ 17473310584260156860870380945
    ∷ []
