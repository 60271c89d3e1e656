-- ===== src/Utils/Snowflake/Node.antt =====
-- The node of a generator: the search of `SnowflakeNodeManager.acquire_node_id` and `Snowflake.init`.
-- The nodes whose keys Redis has, and the answers of its SET NX, are parameters.
use mathlib.Core.Path.{subst}
use rag_service.Prelude.{
  ℕ, zero, suc, ℤ, pos, negsuc, ◌+◌, ◌≤◌, ◌<◌, codes, Bool, true, false, ◌&&◌, not, List, [], ◌∷◌,
  leb, if◌then◌else◌, Option, none, some, ◌≡◌, ◌≢◌, refl, sym, ◌∙◌, arith, Bool-cases, Option-cases,
  none-ne-some, some-inj, inl, inr, ◌⊎◌,
}
use rag_service.Rag.Indexing.{Exception, server_error}
use rag_service.Rag.Exec.{Result, ok, err, ◌>>=◌}
use rag_service.Utils.Snowflake.{Snowflake, max_datacenter_id, max_worker_id}
use rag_service.Utils.Snowflake.Order.{IsNode}

ok-inj : {A : Type 0} {a b : A} → ok a ≡ ok b → a ≡ b
ok-inj e = cc

-- `range(first, first + count)`
range_from : ℕ → ℕ → List ℕ
range_from first zero = []
range_from first (suc count) = first ∷ range_from (suc first) count

-- A number of a node.
abbrev IsNumber : ℤ → Type 0
IsNumber x = (n : ℕ) × (x ≡ pos n) × (n < 32)

-- What two settings give: a generator on their node, or a refusal where one is no number of a node.
pub data Configured (datacenter_id worker_id : ℤ) : Result Snowflake → Type 0 where
  used :
      (s : Snowflake)
      → datacenter_id ≡ pos s.datacenter_id
      → worker_id ≡ pos s.worker_id
      → IsNode s
      → s.initialized ≡ true
      → Configured datacenter_id worker_id (ok s)
  refused :
      (raised : Exception)
      → (¬ IsNumber datacenter_id) ⊎ (¬ IsNumber worker_id)
      → Configured datacenter_id worker_id (err raised)

negsuc-ne-pos : (n m : ℕ) → negsuc n ≢ pos m
negsuc-ne-pos n m e = cc

module _ (occupied : ℕ → ℕ → Bool) (register : ℕ → ℕ → Bool) where
  -- `(datacenter_id, worker_id) not in occupied_nodes and await self._register(…)`
  abbrev pub is_free : ℕ → ℕ → Bool
  is_free datacenter_id worker_id =
      not (occupied datacenter_id worker_id) && register datacenter_id worker_id

  -- The inner loop.
  find_worker : ℕ → List ℕ → Option ℕ
  find_worker datacenter_id [] = none
  find_worker datacenter_id (worker_id ∷ workers) =
      let rest = find_worker datacenter_id workers in
      if is_free datacenter_id worker_id then some worker_id else rest

  -- The outer loop.
  find_node : List ℕ → Option (ℕ × ℕ)
  unfolding find_worker range_from
  find_node [] = none
  find_node (datacenter_id ∷ datacenters) =
      elim (find_worker datacenter_id (range_from 0 (max_worker_id + 1))) [
        | some worker_id ↦ some (datacenter_id, worker_id)
        | none ↦ find_node datacenters
      ]

  unfoldable pub acquire_node_id : Result (ℕ × ℕ)
  unfolding find_node range_from
  acquire_node_id = elim (find_node (range_from 0 (max_datacenter_id + 1))) [
    | some node ↦ ok node
    | none ↦ err (server_error (codes "无可用的雪花算法节点，节点已耗尽"))
  ]

  -- The two settings are integers, and may be below 0.
  choose_node : Option ℤ → Option ℤ → Result (ℤ × ℤ)
  unfolding acquire_node_id
  choose_node (some datacenter_id) (some worker_id) = ok (datacenter_id, worker_id)
  choose_node none none = do node ← acquire_node_id; ok (pos node.0, pos node.1)
  choose_node _ _ = err (server_error (codes "雪花算法配置失败，请联系系统管理员"))

  -- `0 <= id <= bound`
  in_range : ℕ → ℤ → Option ℕ
  in_range bound (negsuc _) = none
  in_range bound (pos n) = if leb n bound then some n else none

  -- The strict checks of the ranges.
  check_node : ℤ × ℤ → Result Snowflake
  unfolding in_range
  check_node (datacenter_id, worker_id) = elim (in_range max_datacenter_id datacenter_id) [
    | none ↦ err (server_error (codes "雪花算法数据中心配置失败，请联系系统管理员"))
    | some datacenter ↦ (elim (in_range max_worker_id worker_id) [
      | none ↦ err (server_error (codes "雪花算法工作机器配置失败，请联系系统管理员"))
      | some worker ↦ ok (record {
        datacenter_id = datacenter;
        worker_id = worker;
        sequence = 0;
        last_timestamp = none;
        initialized = true;
      })
    ])
  ]

  -- `init` of a new generator, with the two settings of the environment.
  unfoldable pub init : Option ℤ → Option ℤ → Result Snowflake
  unfolding choose_node check_node
  init datacenter_id worker_id = do node ← choose_node datacenter_id worker_id; check_node node

  abbrev FreeWorker : ℕ → ℕ → Option ℕ → Type 0
  FreeWorker dc bound found = (w : ℕ) × (found ≡ some w) × (w < bound) × (is_free dc w ≡ true)

  worker_found :
      (dc w first count : ℕ)
      → first ≤ w
      → w < first + count
      → is_free dc w ≡ true
      → FreeWorker dc (first + count) (find_worker dc (range_from first count))
  unfolding find_worker range_from
  worker_found dc w first zero le lt free = absurd (omega arith)
  worker_found dc w first (suc count) le lt free = elim (Bool-cases (is_free dc first)) [
    | inl e ↦ rw e (first, refl, omega arith, e)
    | inr e ↦
        let other : first ≢ w =
          λ same. (let e' = subst (λ x. is_free dc x ≡ false) same e in ground arith) in
        let (w', found, small, free') =
          worker_found dc w (suc first) count (ground arith) (omega arith) free in
        rw (e, found) (w', refl, omega arith, free')
  ]

  worker_sound :
      (dc w first count : ℕ)
      → find_worker dc (range_from first count) ≡ some w
      → (w < first + count) × (is_free dc w ≡ true)
  unfolding find_worker range_from
  worker_sound dc w first zero h = absurd (none-ne-some w h)
  worker_sound dc w first (suc count) h = elim (Bool-cases (is_free dc first)) [
    | inl e ↦
        let same : first ≡ w = some-inj (rw e at h) in
        (omega arith, subst (λ x. is_free dc x ≡ true) same e)
    | inr e ↦
        let (small, free) = worker_sound dc w (suc first) count (rw e at h) in (omega arith, free)
  ]

  abbrev FreeNode : ℕ → Option (ℕ × ℕ) → Type 0
  FreeNode bound found =
      (dc : ℕ) × (w : ℕ) × (found ≡ some (dc, w)) × (dc < bound) × (w < 32) × (is_free dc w ≡ true)

  node_found :
      (dc w first count : ℕ)
      → first ≤ dc
      → dc < first + count
      → w < 32
      → is_free dc w ≡ true
      → FreeNode (first + count) (find_node (range_from first count))
  unfolding find_node range_from
  node_found dc w first zero le lt small free = absurd (omega arith)
  node_found dc w first (suc count) le lt small free =
      elim (Option-cases (find_worker first (range_from 0 32))) [
        | inr (w', e) ↦
            let (small', free') = worker_sound first w' 0 32 e in
            rw (find_node, e) (first, w', refl, omega arith, omega arith, free')
        | inl e ↦
            let other : first ≢ dc = λ same.
              (let (w', found, _, _) =
                  worker_found first w 0 32 (omega arith) (omega arith)
                    (subst (λ x. is_free x w ≡ true) (sym same) free) in
                none-ne-some w' (sym e ∙ found)) in
            let (dc', w', found, near, small', free') =
              node_found dc w (suc first) count (ground arith) (omega arith) small free in
            rw (find_node, e, found) (dc', w', refl, omega arith, small', free')
      ]

  -- Where some node in the ranges is not occupied and can be registered, a node is acquired that is in
  -- the ranges, not occupied and registered.
  pub acquire_node_id_lem :
      (datacenter_id worker_id : ℕ)
      → datacenter_id < 32
      → worker_id < 32
      → is_free datacenter_id worker_id ≡ true
      → (dc : ℕ) × (w : ℕ) × (acquire_node_id ≡ ok (dc, w))
        × (dc < 32)
        × (w < 32)
        × (is_free dc w ≡ true)
  unfolding acquire_node_id
  acquire_node_id_lem dc w hd hw free =
      let (dc', w', found, small, small', free') =
        node_found dc w 0 32 (omega arith) (omega arith) hw free in
      (dc', w', rw (acquire_node_id, found), omega arith, small', free')

  within : (bound n : ℕ) → n < suc bound → in_range bound (pos n) ≡ some n
  unfolding in_range
  within bound n h = let e : leb n bound ≡ true = ground arith in rw e

  checked :
      (dc w : ℕ)
      → dc < 32
      → w < 32
      → check_node (pos dc, pos w)
        ≡ ok (record {
          datacenter_id = dc;
          worker_id = w;
          sequence = 0;
          last_timestamp = none;
          initialized = true;
        })
  unfolding check_node
  checked dc w h k = rw (within 31 dc (omega arith), within 31 w (omega arith), check_node)

  abbrev InRange : ℤ → Type 0
  InRange x = (n : ℕ) × (in_range 31 x ≡ some n) × (x ≡ pos n) × (n < 32)

  ranged : (x : ℤ) → InRange x ⊎ ((in_range 31 x ≡ none) × (¬ IsNumber x))
  unfolding in_range
  ranged (negsuc n) = inr (refl, λ (m, e, _). negsuc-ne-pos n m e)
  ranged (pos n) = elim (Bool-cases (leb n 31)) [
    | inl e ↦ inl (n, rw e, refl, ground arith)
    | inr e ↦ inr (rw e, λ (m, same, small). let eq : n ≡ m = cc in ground arith)
  ]

  configured :
      (datacenter_id worker_id : ℤ)
      → Configured datacenter_id worker_id (check_node (datacenter_id, worker_id))
  unfolding check_node
  configured x y = elim (ranged x) [
    | inr (e, out) ↦ rw (e, check_node) (refused _ (inl out))
    | inl (n, e, same, small) ↦ elim (ranged y) [
      | inr (e', out) ↦ rw (e, e', check_node) (refused _ (inr out))
      | inl (m, e', same', small') ↦
          rw (e, e', check_node)
            (used _ same same'
              (record { datacenter = omega arith; worker = omega arith; counted = omega arith })
              refl)
    ]
  ]

  -- Without settings, and where some node in the ranges is not occupied and can be registered, a new
  -- generator is initialized, on a node in the ranges that is not occupied and was registered; and
  -- with two settings, a new generator is initialized on exactly the node of the settings, or is
  -- refused, where one of the two is not a number from 0 to 31.
  pub init-IsNode :
      (datacenter_id worker_id : ℕ)
      → datacenter_id < 32
      → worker_id < 32
      → is_free datacenter_id worker_id ≡ true
      → ((s : Snowflake) × (init none none ≡ ok s)
          × IsNode s
          × (s.initialized ≡ true)
          × (is_free s.datacenter_id s.worker_id ≡ true))
        × ((x y : ℤ) → Configured x y (init (some x) (some y)))
  unfolding init choose_node
  init-IsNode dc w hd hw free =
      let (dc', w', acquired, small, small', free') = acquire_node_id_lem dc w hd hw free in
      (
        (
          record {
            datacenter_id = dc';
            worker_id = w';
            sequence = 0;
            last_timestamp = none;
            initialized = true;
          },
          rw acquired (checked dc' w' small small'),
          record { datacenter = omega arith; worker = omega arith; counted = omega arith },
          refl,
          free',
        ),
        configured,
      )
