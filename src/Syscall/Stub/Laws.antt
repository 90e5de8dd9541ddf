-- ===== src/Syscall/Stub/Laws.antt =====
-- The way through `syscall_stub` and back.
use chick.Common.{ℕ, ◌≡◌, ◌≢◌, ◌⊎◌, refl, Bool, true, false, not, none, some, inl, inr}
use chick.Common.Outcome.{Outcome, done, err, panic, Outcome-cases}
use chick.Syscall.{Syscall, SysError, Regs, handler, syscall_entry}
use chick.Syscall.Stub.{
  Reg, rax, rdi, rsi, rdx, r8, r9, r10, r11, rcx, Cpu, syscall_stub, set_reg, run, step,
}

-- What the entry saves.
abbrev pub saved : (Reg → ℕ) → Regs
saved regs = record {
  rax = regs rax;
  rdi = regs rdi;
  rsi = regs rsi;
  rdx = regs rdx;
  r8 = regs r8;
  r9 = regs r9;
  r10 = regs r10;
  r11 = regs r11;
  rcx = regs rcx;
}

module _ (from_u8 : ℕ → Syscall) (clobbered : Reg → ℕ) (base : ℕ) (c : Cpu) where
  -- The registers after the last `pop`.
  abbrev popped : ℕ → Reg → ℕ
  popped v = set_reg rcx (c.regs rcx) (
      set_reg r11 (c.regs r11) (
        set_reg r10 (c.regs r10) (
          set_reg r9 (c.regs r9) (
            set_reg r8 (c.regs r8) (
              set_reg rdx (c.regs rdx) (
                set_reg rsi (c.regs rsi) (
                  set_reg rdi (c.regs rdi)
                    (set_reg rax (c.regs rax) (set_reg rax v clobbered)))))))))

  popped-same : (v : ℕ) (r : Reg) → popped v r ≡ c.regs r
  popped-same v rax = refl
  popped-same v rdi = refl
  popped-same v rsi = refl
  popped-same v rdx = refl
  popped-same v r8 = refl
  popped-same v r9 = refl
  popped-same v r10 = refl
  popped-same v r11 = refl
  popped-same v rcx = refl

  not_twice : (b : Bool) → not (not b) ≡ b
  not_twice true = refl
  not_twice false = refl

  run-back :
      (v : ℕ)
      → syscall_entry from_u8 (saved c.regs) ≡ done v
      → run from_u8 clobbered base syscall_stub c
        ≡ some (record {
          regs = popped v;
          stack = c.stack;
          kernel_gs = not (not c.kernel_gs);
          user = true;
        })
  unfolding run
  run-back v e = rw (e, step, run) refl

  run-panic :
      syscall_entry from_u8 (saved c.regs) ≡ panic
      → run from_u8 clobbered base syscall_stub c ≡ none
  unfolding run
  run-panic e = rw (e, step, run) refl

  panic-cases : (x : Outcome SysError (Unit {0})) → (x ≢ panic) ⊎ (x ≡ panic)
  panic-cases (done a) = inl (λ e. cc)
  panic-cases (err a) = inl (λ e. cc)
  panic-cases panic = inr refl

  entry-done : handler from_u8 (c.regs rax) ≢ panic → syscall_entry from_u8 (saved c.regs) ≡ done 1
  unfolding syscall_entry
  entry-done ne = elim (Outcome-cases (handler from_u8 (c.regs rax))) [
    | inl (x, e) ↦ rw (e, syscall_entry) refl
    | inr (inl (x, e)) ↦ rw (e, syscall_entry) refl
    | inr (inr e) ↦ absurd (ne e)
  ]

  entry-panic : handler from_u8 (c.regs rax) ≡ panic → syscall_entry from_u8 (saved c.regs) ≡ panic
  unfolding syscall_entry
  entry-panic e = rw (e, syscall_entry) refl

  -- Unless the handler panics, the entry returns to user code with the stack, the GS base and every
  -- register that it saves as they were, whatever the handler leaves in the registers. That holds
  -- of `rax` too, so user code never sees whether the call failed. If the handler panics, user code
  -- is not reached.
  pub syscall_stub-restores :
      ((handler from_u8 (c.regs rax) ≢ panic)
        × (c' : Cpu) × (run from_u8 clobbered base syscall_stub c ≡ some c')
        × ((r : Reg) → c'.regs r ≡ c.regs r)
        × (c'.stack ≡ c.stack)
        × (c'.kernel_gs ≡ c.kernel_gs)
        × (c'.user ≡ true))
      ⊎ ((handler from_u8 (c.regs rax) ≡ panic)
          × (run from_u8 clobbered base syscall_stub c ≡ none))
  syscall_stub-restores = elim (panic-cases (handler from_u8 (c.regs rax))) [
    | inl ne ↦ inl (
      ne,
      record { regs = popped 1; stack = c.stack; kernel_gs = not (not c.kernel_gs); user = true },
      run-back 1 (entry-done ne),
      popped-same 1,
      refl,
      not_twice c.kernel_gs,
      refl,
    )
    | inr e ↦ inr (e, run-panic (entry-panic e))
  ]
