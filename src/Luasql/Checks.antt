-- ===== src/Luasql/Checks.antt =====
-- Lua/include/luasql: what a call knows once its first argument has been checked.
use Prim.Native.String.{String}
use addons_terraria_tshock.Common.{ℕ, false, Option, none, some, get_elem?, ◌≡◌, refl, ap, ◌∙◌}
use addons_terraria_tshock.Common.Outcome.{argerror}
use addons_terraria_tshock.Common.Action.{Action, and_then, raise_if, pure, ◌>>◌}
use addons_terraria_tshock.Common.Triple.{Ends, Ends-or_raise, Ends-raise_if, Ends-assoc}
use addons_terraria_tshock.Luasql.{
  Value, scalar, object, columns, table, Object, environment, connection, cursor, EnvData, ConnData,
  CurData, State, env_in, conn_in, cur_in, to_object, check_env, check_conn, check_cur,
  getenvironment, getconnection, getcursor,
}

module _ {K C : Type 0} where
  env_in_lem :
      (a : ℕ) (o : Option (Object K C)) (p : ℕ × EnvData)
      → env_in a o ≡ some p
      → (p.0 ≡ a) × (o ≡ some (environment p.1))
  env_in_lem a none p h = cc
  env_in_lem a (some (environment e)) p h = (cc, cc)
  env_in_lem a (some (connection e)) p h = cc
  env_in_lem a (some (cursor e)) p h = cc

  conn_in_lem :
      (a : ℕ) (o : Option (Object K C)) (p : ℕ × ConnData K)
      → conn_in a o ≡ some p
      → (p.0 ≡ a) × (o ≡ some (connection p.1))
  conn_in_lem a none p h = cc
  conn_in_lem a (some (environment e)) p h = cc
  conn_in_lem a (some (connection e)) p h = (cc, cc)
  conn_in_lem a (some (cursor e)) p h = cc

  cur_in_lem :
      (a : ℕ) (o : Option (Object K C)) (p : ℕ × CurData C)
      → cur_in a o ≡ some p
      → (p.0 ≡ a) × (o ≡ some (cursor p.1))
  cur_in_lem a none p h = cc
  cur_in_lem a (some (environment e)) p h = cc
  cur_in_lem a (some (connection e)) p h = cc
  cur_in_lem a (some (cursor e)) p h = (cc, cc)

module _ {N W K C : Type 0} where
  to_object_lem :
      {A : Type 0} (class : ℕ → Option (Object K C) → Option A) (s : State N W K C) (v : Value N)
      (x : A)
      → to_object class s v ≡ some x
      → (a : ℕ) × (v ≡ object a) × (class a (get_elem? s.heap a) ≡ some x)
  to_object_lem class s (scalar v) x h = cc
  to_object_lem class s (columns v) x h = cc
  to_object_lem class s (table v) x h = cc
  to_object_lem class s (object a) x h = (a, refl, h)

  -- The object that an argument was checked to be.
  abbrev pub IsAt : {D : Type 0} → (D → Object K C) → State N W K C → Value N → ℕ × D → Type 0
  IsAt class s v p = (v ≡ object p.0) × (get_elem? s.heap p.0 ≡ some (class p.1))

  IsAt-env :
      (s : State N W K C) (v : Value N) (p : ℕ × EnvData)
      → to_object env_in s v ≡ some p
      → IsAt environment s v p
  IsAt-env s v p h =
      let (a, e, g) = to_object_lem env_in s v p h in
      let (same, o) = env_in_lem a (get_elem? s.heap a) p g in (cc, ap (get_elem? s.heap) same ∙ o)

  IsAt-conn :
      (s : State N W K C) (v : Value N) (p : ℕ × ConnData K)
      → to_object conn_in s v ≡ some p
      → IsAt connection s v p
  IsAt-conn s v p h =
      let (a, e, g) = to_object_lem conn_in s v p h in
      let (same, o) = conn_in_lem a (get_elem? s.heap a) p g in (cc, ap (get_elem? s.heap) same ∙ o)

  IsAt-cur :
      (s : State N W K C) (v : Value N) (p : ℕ × CurData C)
      → to_object cur_in s v ≡ some p
      → IsAt cursor s v p
  IsAt-cur s v p h =
      let (a, e, g) = to_object_lem cur_in s v p h in
      let (same, o) = cur_in_lem a (get_elem? s.heap a) p g in (cc, ap (get_elem? s.heap) same ∙ o)

module _ {N W K C B : Type 0} (I : State N W K C → Type 0) (R : B → State N W K C → Type 0)
    (tname closed : String) (v : Value N) (s : State N W K C) (i : I s) where
  pub Ends-check_env :
      (k : ℕ × EnvData → Action (State N W K C) B)
      → ((p : ℕ × EnvData) → IsAt environment s v p → Ends I R (k p s))
      → Ends I R (and_then (check_env tname v s) k)
  unfolding check_env
  Ends-check_env k f =
      Ends-or_raise I R (to_object env_in s v) (argerror 1 tname) s k i
        (λ p h. f p (IsAt-env s v p h))

  pub Ends-check_conn :
      (k : ℕ × ConnData K → Action (State N W K C) B)
      → ((p : ℕ × ConnData K) → IsAt connection s v p → Ends I R (k p s))
      → Ends I R (and_then (check_conn tname v s) k)
  unfolding check_conn
  Ends-check_conn k f =
      Ends-or_raise I R (to_object conn_in s v) (argerror 1 tname) s k i
        (λ p h. f p (IsAt-conn s v p h))

  pub Ends-check_cur :
      (k : ℕ × CurData C → Action (State N W K C) B)
      → ((p : ℕ × CurData C) → IsAt cursor s v p → Ends I R (k p s))
      → Ends I R (and_then (check_cur tname v s) k)
  unfolding check_cur
  Ends-check_cur k f =
      Ends-or_raise I R (to_object cur_in s v) (argerror 1 tname) s k i
        (λ p h. f p (IsAt-cur s v p h))

  -- Closed objects are refused.
  pub Ends-getenvironment :
      (k : ℕ × EnvData → Action (State N W K C) B)
      → ((p : ℕ × EnvData) → IsAt environment s v p → p.1.closed ≡ false → Ends I R (k p s))
      → Ends I R (and_then (getenvironment tname closed v s) k)
  unfolding getenvironment
  Ends-getenvironment k f =
      Ends-assoc I R (check_env tname v s) (λ p. raise_if p.1.closed (argerror 1 closed) >> pure p)
        k
        (Ends-check_env (λ p s. and_then ((raise_if p.1.closed (argerror 1 closed) >> pure p) s) k)
          (λ p at.
            Ends-assoc I R (raise_if p.1.closed (argerror 1 closed) s) (λ _. pure p) k
              (Ends-raise_if I R p.1.closed (argerror 1 closed) s (λ _. k p) i (f p at))))

  pub Ends-getconnection :
      (k : ℕ × ConnData K → Action (State N W K C) B)
      → ((p : ℕ × ConnData K) → IsAt connection s v p → p.1.closed ≡ false → Ends I R (k p s))
      → Ends I R (and_then (getconnection tname closed v s) k)
  unfolding getconnection
  Ends-getconnection k f =
      Ends-assoc I R (check_conn tname v s) (λ p. raise_if p.1.closed (argerror 1 closed) >> pure p)
        k
        (Ends-check_conn (λ p s. and_then ((raise_if p.1.closed (argerror 1 closed) >> pure p) s) k)
          (λ p at.
            Ends-assoc I R (raise_if p.1.closed (argerror 1 closed) s) (λ _. pure p) k
              (Ends-raise_if I R p.1.closed (argerror 1 closed) s (λ _. k p) i (f p at))))

  pub Ends-getcursor :
      (k : ℕ × CurData C → Action (State N W K C) B)
      → ((p : ℕ × CurData C) → IsAt cursor s v p → p.1.closed ≡ false → Ends I R (k p s))
      → Ends I R (and_then (getcursor tname closed v s) k)
  unfolding getcursor
  Ends-getcursor k f =
      Ends-assoc I R (check_cur tname v s) (λ p. raise_if p.1.closed (argerror 1 closed) >> pure p)
        k
        (Ends-check_cur (λ p s. and_then ((raise_if p.1.closed (argerror 1 closed) >> pure p) s) k)
          (λ p at.
            Ends-assoc I R (raise_if p.1.closed (argerror 1 closed) s) (λ _. pure p) k
              (Ends-raise_if I R p.1.closed (argerror 1 closed) s (λ _. k p) i (f p at))))
