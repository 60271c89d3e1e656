-- ===== src/Admin/Effects/Quiet.antt =====
-- Handlers that raise no `RequestError` and no `CustomError`.
use rag_service.Prelude.{Option, none, some}
use rag_service.Admin.Exec.{Error, Result, ok, err, M, chain, or_raise, request_error, custom_error}
use rag_service.Admin.Redis.{Redis}

abbrev pub IsQuiet : Error → Type 0
IsQuiet (request_error _) = ⊥
IsQuiet (custom_error _) = ⊥
IsQuiet _ = Unit

abbrev pub Quiet : {A : Type 0} → Result A → Type 0
Quiet (ok _) = Unit
Quiet (err raised) = IsQuiet raised

pub chain-Quiet :
    {A B : Type 0} (m : Result A × Redis) (next : A → M Redis B)
    → Quiet m.0
    → ((a : A) (r : Redis) → Quiet (next a r).0)
    → Quiet (chain m next).0
chain-Quiet (err _, r) next h k = h
chain-Quiet (ok a, r) next h k = k a r

pub or_raise-Quiet : {A : Type 0} (e : Error) (o : Option A) → IsQuiet e → Quiet (or_raise e o)
or_raise-Quiet e none h = h
or_raise-Quiet e (some a) h = tt
