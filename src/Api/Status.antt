-- ===== src/Api/Status.antt =====
-- What the services of internal/api answer: a response, or a status by its code. The texts of errors
-- are left out.
use battery.Store.Error.{Error, Result, ok, err, not_found}
use battery.World.{Prog, pure}

-- The codes of google.golang.org/grpc/codes that the services use; `no_such` is
-- codes.NotFound, and `cancelled` stands for the code of a context that is done.
pub data Code : Type 0 where
  no_such internal unavailable invalid_argument already_exists : Code
  failed_precondition resource_exhausted aborted cancelled : Code

pub data Reply (A : Type 0) : Type 0 where
  reply : A → Reply A
  status : Code → Reply A

abbrev pub code_of : Error → Code
code_of not_found = no_such
code_of _ = internal

-- `if errors.Is(err, store.ErrNotFound) { NotFound }; if err != nil { Internal }`
abbrev pub when_ok : {A B : Type 0} → Result A → (A → Prog (Reply B)) → Prog (Reply B)
when_ok (ok a) f = f a
when_ok (err e) f = pure (status (code_of e))

abbrev pub refuse : {A : Type 0} → Code → Prog (Reply A)
refuse c = pure (status c)
