-- ===== src/Png/Rows08.antt =====
-- Lines 1052 to 1201 of ututna/test_png.c, a row of twelve bytes as one number.
use Prim.Native.Nat.{ℕ}
use mathlib.Core.List.{List, [], ◌∷◌}

unfoldable pub rows_08 : List ℕ
rows_08 =
    70893213116799967871020094134 ∷ 37333895526265838835995128867 ∷ 75683774385683669743994194974
    ∷ 7626534937030723903479141910 ∷ 3254536524701487484788673205 ∷ 61042276376747387193185731575
    ∷ 75155590353276256353741854396 ∷ 79215100207010647635386071198 ∷ 58052952715410294105204828561
    ∷ 17207246727146712308677593081 ∷ 23348305128804660496617908189 ∷ 58191626923405765336670039475
    ∷ 19002448943910658744246812323 ∷ 16640501457182926253440534092 ∷ 61834273874413636057077648699
    ∷ 30760885610184027713346667368 ∷ 67422746537324236562127126164 ∷ 13427707628408734631848982625
    ∷ 38085541286263165470177443100 ∷ 43569442656437414654897121816 ∷ 24478706467274418450927770427
    ∷ 69519739385600629175899234241 ∷ 3368791265002402384205565979 ∷ 15664283049094157926542222892
    ∷ 54198776545946741523721303783 ∷ 34738930563504123832285718866 ∷ 58490070272731257172385094883
    ∷ 3542675519144522821307695144 ∷ 33483568757080828970078207654 ∷ 9906096629080050280615700839
    ∷ 76867278560137503432746465455 ∷ 26224380888261367175157610959 ∷ 63445178972350970199807786555
    ∷ 40674287314377468134096803044 ∷ 29813278867649325493761678803 ∷ 23994748260279971377941981843
    ∷ 48388961815455394441950841217 ∷ 60646029120591996477584587639 ∷ 27006266150395498419511144161
    ∷ 64472911838138913735861278965 ∷ 67351458991258629636754432820 ∷ 50707967459475079408369451258
    ∷ 14872867786225478667398615542 ∷ 51752460765813224687057085719 ∷ 50433574944981383128584766520
    ∷ 55799859494666563023082186419 ∷ 71847863940930923864742378661 ∷ 1674627678614721976648391995
    ∷ 35807107804014519264015963868 ∷ 28085200488154374683194352642 ∷ 72431355605076484035170994928
    ∷ 68271439311528290604283641418 ∷ 49994426261174736824866521083 ∷ 78159241089175272739168747202
    ∷ 54044592640862920321421085718 ∷ 40424191677402967952306689881 ∷ 68184993491626979753659804809
    ∷ 59528784507270316367074096742 ∷ 53249639689788363459731584122 ∷ 8778683435497118631677353361
    ∷ 35838359180621228371263073292 ∷ 32530206054201688031588928269 ∷ 34499178897229429901320864749
    ∷ 32686556695372681906559477564 ∷ 71115174545127974225515225385 ∷ 28257812008505676099634782497
    ∷ 38089807381205138674941626857 ∷ 11686048892010823066408840508 ∷ 36631868162496581106368941539
    ∷ 74931886527036745905214931239 ∷ 2571279277329190240522152675 ∷ 279203220169117289786574712
    ∷ 35890227645806875783733515226 ∷ 64382848744956825592473617790 ∷ 12015942254615098799567016326
    ∷ 10907458521215706772781115904 ∷ 37323700443520713551735881395 ∷ 35067649336249468868125874131
    ∷ 53835920708477334938469699900 ∷ 66327145764903336244813069390 ∷ 57705247407605873556807342889
    ∷ 64352867824190188024026530142 ∷ 66971668924637833507500415331 ∷ 65157005863485898219673944363
    ∷ 31738539599142101898457354698 ∷ 56827213628350411197523668339 ∷ 10523449628529907007497201889
    ∷ 8249499317025426576921929418 ∷ 63800571818068141610760200680 ∷ 279529610935391572685738302
    ∷ 51594126177184593534389497231 ∷ 38831174715752212103135235980 ∷ 63184495034924936211901082493
    ∷ 34230998846366890513784014991 ∷ 42468092133919057593853681847 ∷ 12569388528466839698001591950
    ∷ 59416693748130658873633471554 ∷ 51091429903386156519204315008 ∷ 2533214058508584574965310854
    ∷ 78692575742237788045691551768 ∷ 58703243738292481304059693313 ∷ 73328388847890466701355743906
    ∷ 74558371745084028175758905115 ∷ 3789921531597764759498389384 ∷ 15045617541272075999161073798
    ∷ 74372393537222573440409437792 ∷ 67905215909279144032255611062 ∷ 76357191226784735600887842290
    ∷ 34604106697106150229305522223 ∷ 33712942325546697745728828319 ∷ 23389609751406351934534270309
    ∷ 54330953900255250299330982001 ∷ 23812202546996734016346760813 ∷ 58445283275822490287684298548
    ∷ 52086941306603243028545838816 ∷ 40814913877175973918067962390 ∷ 10467926774057839931576983059
    ∷ 4309884063744337268297874952 ∷ 71136755466876164402551752974 ∷ 21136752238884847232766782788
    ∷ 77040268004056087356814266108 ∷ 61040298254366716736621832509 ∷ 64942603045803615156530098277
    ∷ 8838295224924143041627382156 ∷ 9709789666529339257798750098 ∷ 35139578140029712854740718125
    ∷ 64314671458314322805140032760 ∷ 17698579933762372893272912029 ∷ 15567805724030057061672916209
    ∷ 16353966489015051589320283638 ∷ 11897589784231215084004940146 ∷ 30120217557712050013148372064
    ∷ 18817240174827572207819624152 ∷ 46566381756163022360081599930 ∷ 17190559265609180401616174130
    ∷ 65649112048615065991048576509 ∷ 26228370422262579187987339954 ∷ 25181542808422658426337698969
    ∷ 32414705143033843269317410958 ∷ 13727896819597626361511036805 ∷ 54225956579009139265581075325
    ∷ 78883155808158258852727495330 ∷ 43947317400882331398042611979 ∷ 58241432364233285721889443682
    ∷ 39608893457617631045988245462 ∷ 13783535768883711604909076427 ∷ 70738964168592773004006719010
    ∷ 72326101993978003665980856947 ∷ 21486667500083351051118712077 ∷ 24949482152275230792665046906
    ∷ []
