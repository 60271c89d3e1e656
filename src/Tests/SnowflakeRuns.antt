-- ===== src/Tests/SnowflakeRuns.antt =====
-- A generator that is at the end of its sequence in one millisecond.
use rag_service.Prelude.{
  ℤ, Bool, codes, pos, negsuc, ◌==◌, none, ℕ, ◌+◌, ◌<◌, true, [], ◌∷◌, some, ◌≡◌, refl, arith,
}
use rag_service.Utils.Snowflake.{Snowflake, generate, issued, compose, till_next_ms}
use rag_service.Utils.Snowflake.Order.{IsNode, generate_increasing}
use rag_service.Rag.Exec.{ok, err}
use rag_service.Rag.Indexing.{server_error}
use rag_service.Utils.Snowflake.Node.{Configured, is_free, init, init-IsNode}
use rag_service.Utils.Snowflake.Liveness.{IsIssued, generate-IsIssued}

abbrev at : ℕ → ℕ → Snowflake
at timestamp sequence = record {
  datacenter_id = 3;
  worker_id = 5;
  sequence = sequence;
  last_timestamp = some timestamp;
  initialized = true;
}

node : IsNode (at 1000 4094)
node = record { datacenter = ground arith; worker = ground arith; counted = ground arith }

last_one :
    generate (at 1000 4094) (1000 ∷ []) ≡ issued (compose 1000 (at 1000 4095)) (at 1000 4095) []
unfolding generate compose
last_one = refl

next_one :
    generate (at 1000 4095) (1000 ∷ 1000 ∷ 1001 ∷ [])
    ≡ issued (compose 1001 (at 1001 0)) (at 1001 0) []
unfolding generate till_next_ms compose
next_one = refl

generate_increasing_run :
    (compose 1000 (at 1000 4095) < compose 1001 (at 1001 0)) × IsNode (at 1001 0)
generate_increasing_run =
    generate_increasing (at 1000 4094) (at 1000 4095) (at 1001 0) (1000 ∷ []) []
      (1000 ∷ 1000 ∷ 1001 ∷ []) [] (compose 1000 (at 1000 4095)) (compose 1001 (at 1001 0)) node
      last_one next_one

generate_live_run : IsIssued (generate (at 1000 4095) (990 ∷ 1001 ∷ []))
generate_live_run =
    generate-IsIssued (at 1000 4095) 1000 990 (1001 ∷ []) refl refl (ground arith) (ground arith)

-- Only the first worker of the first center is taken, and Redis registers every other.
abbrev taken : ℕ → ℕ → Bool
taken datacenter_id worker_id = datacenter_id + worker_id == 0

abbrev registers : ℕ → ℕ → Bool
registers datacenter_id worker_id = true

below_zero :
    init taken registers (some (negsuc 0)) (some (pos 5))
    ≡ err (server_error (codes "雪花算法数据中心配置失败，请联系系统管理员"))
unfolding init
below_zero = refl

init_run :
    ((s : Snowflake) × (init taken registers none none ≡ ok s)
      × IsNode s
      × (s.initialized ≡ true)
      × (is_free taken registers s.datacenter_id s.worker_id ≡ true))
    × ((x y : ℤ) → Configured x y (init taken registers (some x) (some y)))
init_run = init-IsNode taken registers 4 7 (ground arith) (ground arith) refl
