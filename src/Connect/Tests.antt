-- ===== src/Connect/Tests.antt =====
-- coremodel.c: connecting to a machine that answers, and to one that does not.
use coremodel.Base.{◌≡◌, refl, true, false, [], ◌∷◌, none, some, arith, ◌==◌, if◌then◌else◌}
use coremodel.Connect.{good, bad, Host, coremodel_connect}
use coremodel.Connect.Resources.{Ended, holding, let_go, coremodel_connect-Ended}

-- The host `a` has the address 10, and only the port 1900 of it answers.
abbrev host : Host
host = record {
  init = true;
  mutex = true;
  pipe = good (5, 6);
  wake_nonblock = good tt;
  coremodel_vm = none;
  copy = true;
  strtol = λ text. 2000;
  gethostbyname = λ name. some 10;
  socket = good 7;
  connect = λ addr port. if port == 1900 then good tt else bad 111;
  sock_nonblock = good tt;
}

coremodel_connect-Ended_example :
    Ended
      (3 ∷ [])
      true
      (coremodel_connect host (some (b'a' ∷ [])) (holding (3 ∷ []) 0 false false false))
coremodel_connect-Ended_example =
    coremodel_connect-Ended host (some (b'a' ∷ [])) (3 ∷ []) 0 refl refl (λ e. absurd (omega arith))

-- ECONNREFUSED is not what the caller gets.
refused :
    coremodel_connect host (some (b'a' ∷ b':' ∷ b'2' ∷ [])) (holding (3 ∷ []) 0 false false false)
    ≡ let_go (3 ∷ [])
unfolding coremodel_connect
refused = refl
