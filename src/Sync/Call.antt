-- ===== src/Sync/Call.antt =====
-- A thread that runs without interruption does what `set` and `get` say.
use chick.Common.{
  ℕ, ◌≡◌, ◌≢◌, refl, ◌∙◌, Bool, true, false, none, some, ◌==◌, arith, Bool-cases, inl, inr,
}
use chick.Common.Store.{update_self, update_ne}
use chick.Sync.{
  OnceLock, initialized, initializing, uninitialized, Result, Pc, Move, System, Steps, set, get,
}
use chick.Sync.Alone.{moved, one}
use chick.Sync.Safety.{Steps-trans}

module _ {A : Type 0} where
  -- Thread `i` alone has taken steps, to the cell and the result.
  pub record Calls (s : System A) (i : ℕ) (m : OnceLock A) (r : Result A) (t : System A)
      : Type 0 where
    pub steps : Steps s t
    pub lock : t.lock ≡ m
    pub result : t.pc i ≡ Pc.returned r
    pub others : (j : ℕ) → i ≢ j → t.pc j ≡ s.pc j

  call-Move :
      (s : System A) (i : ℕ) (q : Pc A) (m : OnceLock A) (p : Pc A) (m' : OnceLock A) (r : Result A)
      → s.pc i ≡ q
      → Move s.lock q m p
      → (t : System A) × Calls (moved s i m p) i m' r t
      → (t : System A) × Calls s i m' r t
  call-Move s i q m p m' r e mv (t, c) = (
    t,
    record {
      steps = Steps-trans (one s i q m p e mv) c.steps;
      lock = c.lock;
      result = c.result;
      others = λ j ne. c.others j ne ∙ update_ne s.pc i j p ne;
    },
  )

  last_call :
      (s : System A) (i : ℕ) (q : Pc A) (m : OnceLock A) (r : Result A)
      → s.pc i ≡ q
      → Move s.lock q m (Pc.returned r)
      → (t : System A) × Calls s i m r t
  last_call s i q m r e mv = (
    moved s i m (Pc.returned r),
    record {
      steps = one s i q m (Pc.returned r) e mv;
      lock = refl;
      result = update_self s.pc i (Pc.returned r);
      others = λ j ne. update_ne s.pc i j (Pc.returned r) ne;
    },
  )

  abbrev pub set_result : Bool → Result A
  set_result true = Result.set_ok
  set_result false = Result.set_err

  won :
      (s : System A) (i : ℕ) (v : A)
      → s.pc i ≡ Pc.set_exchange v
      → s.lock.once ≡ uninitialized
      → (t : System A) × Calls s i (record { once = initialized; value = some v }) Result.set_ok t
  won s i v e h =
      let m1 : OnceLock A = record (s.lock) { once = initializing } in
      let m2 : OnceLock A = record (s.lock) { once = initializing; value = some v } in
      let m3 : OnceLock A = record { once = initialized; value = some v } in
      let s1 = moved s i m1 (Pc.set_write v) in
      let s2 = moved s1 i m2 (Pc.set_publish v) in
      call-Move s i (Pc.set_exchange v) m1 (Pc.set_write v) m3 Result.set_ok e (Move.set_win h) (
        call-Move s1 i (Pc.set_write v) m2 (Pc.set_publish v) m3 Result.set_ok
          (update_self s.pc i (Pc.set_write v)) Move.set_store
          (last_call s2 i (Pc.set_publish v) m3 Result.set_ok
            (update_self s1.pc i (Pc.set_publish v)) Move.set_done))

  -- A thread that calls `set` and is not interrupted takes steps to the cell and the result of the
  -- function `set`, and no other thread moves.
  pub set-Calls :
      (s : System A) (i : ℕ) (v : A)
      → s.pc i ≡ Pc.idle
      → (t : System A) × Calls s i (set v s.lock).0 (set_result (set v s.lock).1) t
  unfolding set
  set-Calls s i v e =
      let s1 = moved s i s.lock (Pc.set_exchange v) in
      let here = update_self s.pc i (Pc.set_exchange v) in
      elim (Bool-cases (s.lock.once == uninitialized)) [
        | inl h ↦ rw h (
            call-Move s i Pc.idle s.lock (Pc.set_exchange v)
              (record { once = initialized; value = some v }) Result.set_ok e Move.call_set
              (won s1 i v here (ground arith)))
        | inr h ↦ rw h (
            call-Move s i Pc.idle s.lock (Pc.set_exchange v) s.lock Result.set_err e Move.call_set (
              last_call s1 i (Pc.set_exchange v) s.lock Result.set_err here
                (Move.set_lose (ground arith))))
      ]

  -- A thread that calls `get` and is not interrupted takes steps to the result of the function
  -- `get`. The cell stays as it is, and no other thread moves.
  pub get-Calls :
      (s : System A) (i : ℕ)
      → s.pc i ≡ Pc.idle
      → (t : System A) × Calls s i s.lock (Result.got (get s.lock)) t
  unfolding get
  get-Calls s i e =
      let s1 = moved s i s.lock Pc.get_load in
      let s2 = moved s1 i s.lock Pc.get_read in
      let here = update_self s.pc i Pc.get_load in
      elim (Bool-cases (s.lock.once == initialized)) [
        | inl h ↦ rw h (
            call-Move s i Pc.idle s.lock Pc.get_load s.lock (Result.got s.lock.value) e
              Move.call_get
              (call-Move s1 i Pc.get_load s.lock Pc.get_read s.lock (Result.got s.lock.value) here
                (Move.get_hit (ground arith))
                (last_call s2 i Pc.get_read s.lock (Result.got s.lock.value)
                  (update_self s1.pc i Pc.get_read) Move.get_value)))
        | inr h ↦ rw h (
            call-Move s i Pc.idle s.lock Pc.get_load s.lock (Result.got none) e Move.call_get (
              last_call s1 i Pc.get_load s.lock (Result.got none) here
                (Move.get_miss (ground arith))))
      ]
