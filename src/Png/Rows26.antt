-- ===== src/Png/Rows26.antt =====
-- Lines 3752 to 3901 of ututna/test_png.c, a row of twelve bytes as one number.
use Prim.Native.Nat.{ℕ}
use mathlib.Core.List.{List, [], ◌∷◌}

unfoldable pub rows_26 : List ℕ
rows_26 =
    60947524964115724690124860872 ∷ 58980080823900930924974672175 ∷ 52028823325832827090792848462
    ∷ 55638951881656853346152022024 ∷ 19022855579272621762192239224 ∷ 68890400967111238274788471471
    ∷ 44304208551501889654750619244 ∷ 25178148606755739246882507673 ∷ 57146167678953728751474279197
    ∷ 35969530901303061972583551335 ∷ 58734978852192782459359094522 ∷ 24402538788331109076902370577
    ∷ 33644054410923643805302164147 ∷ 60611598686484118054566599316 ∷ 67560532865180966037050032260
    ∷ 48961113264999728676512762756 ∷ 7874522562645215208776562661 ∷ 7348431209804790886040572191
    ∷ 78408186854173106560674257736 ∷ 74705846581554171622301992823 ∷ 19952472921763397857283802225
    ∷ 61113103282249204253446432964 ∷ 59334776252330416054106848642 ∷ 28265056314716023044903592395
    ∷ 38060862652218955677891231179 ∷ 18127938346683075717028072081 ∷ 72504019222715753856689184020
    ∷ 24580745534713921767448683229 ∷ 70300839679009671911916944766 ∷ 17495155770053706628339971735
    ∷ 18947792886304223572336900659 ∷ 52400061649505389045939622134 ∷ 28588440268007615058437249005
    ∷ 31508519465971473333628167082 ∷ 15301987607445567176413731590 ∷ 55972666898821345346343317617
    ∷ 51048443292828909993264164570 ∷ 5283748909848405405753494498 ∷ 44545737494744315921323990669
    ∷ 74207343056355736220463582854 ∷ 68407885266427274341066860918 ∷ 67259434577333412700450784706
    ∷ 18014605980048812274727902902 ∷ 3288721158653023674277735883 ∷ 61574038440415487155036817738
    ∷ 27383818688925351992113204774 ∷ 51131306681826839458304205840 ∷ 20676933369500026806213498261
    ∷ 18672131729772451938516523855 ∷ 58638444967534324076523773115 ∷ 16934353014276294304376620657
    ∷ 26855077948449372571266566929 ∷ 43178774225698976980822276114 ∷ 20479763954158808708132311750
    ∷ 4616385898638974137018155260 ∷ 6188656224264822032167440118 ∷ 14428217863461266860683120746
    ∷ 16080705837277996982331275806 ∷ 48346188419329372151449988169 ∷ 77184423310714465210200974638
    ∷ 76801340324583506538412563458 ∷ 67958223567035111564171344972 ∷ 68010642963089968053059010515
    ∷ 20618482890628251602318876511 ∷ 45675586665049855124485025323 ∷ 58145702963243854786235798846
    ∷ 4190432949896705799478392531 ∷ 503508589368777487049927773 ∷ 18727940079463650485443316747
    ∷ 76108965717350555764251155138 ∷ 73351630047456922128413512969 ∷ 34562688857701689590439519719
    ∷ 47698375401596358574994347364 ∷ 76418409612258354019113933611 ∷ 8625882037647745739779862681
    ∷ 23840174862979102234333589432 ∷ 55468145594224117697724511777 ∷ 52565431116614120211541933395
    ∷ 68042837920850591437135110100 ∷ 58610688425471610634454876607 ∷ 74485983565188745651051987975
    ∷ 43795658506534715688948369923 ∷ 3507839672795784161697384838 ∷ 978745683121324149658267878
    ∷ 18155651950756391241207666002 ∷ 77936250551512750004678408516 ∷ 2618054658176859213648646445
    ∷ 35119023911142341284954100283 ∷ 53430881080757434454765548585 ∷ 34688565900394981455567905262
    ∷ 71564995420246249664743650577 ∷ 10422621726036084433079089166 ∷ 69729506442595880453602813663
    ∷ 17232563781361289083041083725 ∷ 195127219694178536002886053 ∷ 73587539949710020112084950208
    ∷ 65522973467328089255160102888 ∷ 72658394529116281308845449445 ∷ 25891235278751515104413895802
    ∷ 24697220754017738591695448666 ∷ 22060735952821980073562207700 ∷ 26306979978337975705835306329
    ∷ 17187941088103584442671035509 ∷ 10992435671693873763858758983 ∷ 50347410581577345535179599050
    ∷ 17862761423449488476253394086 ∷ 45012538362504426810979695422 ∷ 76881060719849553953954279074
    ∷ 64533681418406087722929154467 ∷ 51961179742660403316655519118 ∷ 4592626968829940784563874911
    ∷ 28196264016874867941974405309 ∷ 60444543389876775817909288300 ∷ 26725037922747031847450326879
    ∷ 26636238665545354541061907684 ∷ 22385436781698774642360192711 ∷ 47761434814450898555107430887
    ∷ 49405571654793884287241436501 ∷ 4948920798029621155105783528 ∷ 48583061729989836158921481960
    ∷ 55652615689866977750182983388 ∷ 33239924907998821092600881591 ∷ 69284686735481118354144731303
    ∷ 70958552251180737723062227895 ∷ 67007548527837224047282244171 ∷ 23225381282431749168653044876
    ∷ 48515112874056343392665775694 ∷ 11168070892476326228817936443 ∷ 61509984198518223468729334826
    ∷ 18348302044761601768289786872 ∷ 61526420268773992870739366044 ∷ 57155803447856192979405472912
    ∷ 57411282243271310946938452961 ∷ 58457950317179042856135292460 ∷ 74257750420825237317862363999
    ∷ 38176054998940024604094253633 ∷ 32623323256106473369442481142 ∷ 54192479170550208593771540165
    ∷ 53554225432339556341302788991 ∷ 47191459961492361797470229777 ∷ 20458279680952102214966397992
    ∷ 12680363756370551628121431002 ∷ 72869716693247694250910920456 ∷ 17523798357219696065010238989
    ∷ 22094136420771582625755290302 ∷ 14151269583219598685873551480 ∷ 79026898584364846390963883479
    ∷ 1359643647067019257382408299 ∷ 6708224538616432101988525481 ∷ 72081384099559456285580062802
    ∷ []
