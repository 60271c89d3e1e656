-- ===== src/Admin/Effects.antt =====
-- Handlers that read and write Redis, and the `do` blocks over them.
pub mod Quiet
use rag_service.Prelude.{Bool, true, false}
use rag_service.Admin.Exec.{Error, Result, ok, err, M, chain}
use rag_service.Admin.Redis.{Redis}

infixl 5 ◌>>=◌ ◌>>◌
abbrev pub ◌>>=◌ : {A B : Type 0} → M Redis A → (A → M Redis B) → M Redis B
◌>>=◌ m next redis = chain (m redis) next

abbrev pub ◌>>◌ : {B : Type 0} → M Redis (Unit {0}) → M Redis B → M Redis B
m >> next = m >>= λ _. next

abbrev pub return : {A : Type 0} → A → M Redis A
return value redis = (ok value, redis)

abbrev pub raise : {A : Type 0} → Error → M Redis A
raise error redis = (err error, redis)

abbrev pub lift : {A : Type 0} → Result A → M Redis A
lift result redis = (result, redis)

abbrev pub write : (Redis → Redis) → M Redis (Unit {0})
write change redis = (ok tt, change redis)
