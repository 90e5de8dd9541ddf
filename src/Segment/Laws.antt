-- ===== src/Segment/Laws.antt =====
-- The selectors of the table, what the processor loads for system calls, and the stacks of handlers.
use chick.Common.{
  ℕ, ◌+◌, ◌%◌, ◌^◌, ◌≡◌, ◌≢◌, ◌<◌, refl, sym, ◌∙◌, some, arith, bit_or, bit_and, ◌==◌,
  if◌then◌else◌,
}
use chick.Common.Bits.{or-low, or-zero, or-one}
use chick.Segment.{
  GdtOps, IsGdt, gdt, Msrs, init_syscall, syscall_selectors, sysret_selectors, load, Gate, idt, tss,
  stack_size, ist_index, kernel_code_segment, kernel_data_segment, user_code_segment,
  user_data_segment, tss_segment,
}

or-even : (a b : ℕ) → b % 2 ≡ 0 → bit_or a b % 2 ≡ a % 2
or-even a b h = rw (or-low 1 a b, h) (or-zero (a % 2))

efer-enabled : (x : ℕ) → bit_or (bit_or (bit_or x 1) 256) 1024 % 2 ≡ 1
efer-enabled x =
    or-even (bit_or (bit_or x 1) 256) 1024 refl
    ∙ or-even (bit_or x 1) 256 refl
    ∙ or-low 1 x 1
    ∙ or-one (x % 2) (omega arith)

module _ {G : Type 0} (ops : GdtOps G) (laws : IsGdt ops) where
  open laws use {next, next-new, selector, next-append}

  gdt-selectors : (gdt ops).1 ≡ record {
    code_selector = 0x08;
    data_selector = 0x10;
    user_code_selector = 0x1b;
    user_data_selector = 0x23;
    tss_selector = 0x28;
  }
  unfolding gdt
  gdt-selectors =
      let g1 = (ops.append kernel_code_segment ops.new).1 in
      let g2 = (ops.append kernel_data_segment g1).1 in
      let g3 = (ops.append user_code_segment g2).1 in
      let g4 = (ops.append user_data_segment g3).1 in
      let n1 : next g1 ≡ 2 = rw (next-append kernel_code_segment ops.new, next-new) refl in
      let n2 : next g2 ≡ 3 = rw (next-append kernel_data_segment g1, n1) refl in
      let n3 : next g3 ≡ 4 = rw (next-append user_code_segment g2, n2) refl in
      let n4 : next g4 ≡ 5 = rw (next-append user_data_segment g3, n3) refl in
      rw
        (
          selector kernel_code_segment ops.new,
          selector kernel_data_segment g1,
          selector user_code_segment g2,
          selector user_data_segment g3,
          selector tss_segment g4,
          next-new,
          n1,
          n2,
          n3,
          n4,
        )
        refl

  -- After `init_syscall` the instruction SYSCALL loads the selectors of the kernel's code and data
  -- that `load` loads, and clears the flags IF and DF; it is enabled in EFER. SYSRET loads the
  -- selector of the user's data, but for the code it loads that of the task state segment, and not the
  -- one of the user's code.
  pub init_syscall-selectors :
      (handler : ℕ) (m : Msrs)
      → let s = (gdt ops).1 in
        let m' = init_syscall s handler m in
        (syscall_selectors m' ≡ ((load s).cs, (load s).ss))
        × (bit_and m'.sfmask (2 ^ 9) ≡ 2 ^ 9)
        × (bit_and m'.sfmask (2 ^ 10) ≡ 2 ^ 10)
        × (m'.efer % 2 ≡ 1)
        × ((sysret_selectors m').1 ≡ s.user_data_selector)
        × ((sysret_selectors m').0 ≡ s.tss_selector + 3)
        × ((sysret_selectors m').0 ≢ s.user_code_selector)
  unfolding init_syscall load
  init_syscall-selectors handler m =
      rw gdt-selectors
        (refl, refl, refl, efer-enabled m.efer, refl, refl, λ e. absurd (omega arith))

-- The vector of the handler with a stack.
vector_of : ℕ → ℕ
vector_of i = if i == 0 then 8 else if i == 1 then 2 else 18

stack_index-vector :
    (v i : ℕ) (g : Gate) → idt v ≡ some g → g.stack_index ≡ some i → (v ≡ vector_of i) × (i < 3)
unfolding idt ist_index vector_of
stack_index-vector v i g a c = (ground arith, ground arith)

stack_table :
    (stack : ℕ → ℕ) (i : ℕ) → i < 3 → (tss stack).interrupt_stack_table i ≡ stack i + stack_size
unfolding tss ist_index
stack_table stack i low = ground arith

-- Two vectors whose handlers have the same index into the stacks are the same vector, and the stack
-- at the index is the upper end of one of the first three of `TSS`.
pub idt-stacks :
    (stack : ℕ → ℕ) (v w i : ℕ) (g h : Gate)
    → idt v ≡ some g
    → idt w ≡ some h
    → g.stack_index ≡ some i
    → h.stack_index ≡ some i
    → (v ≡ w) × ((k : ℕ) × (k < 3) × ((tss stack).interrupt_stack_table i ≡ stack k + stack_size))
unfolding idt tss ist_index
idt-stacks stack v w i g h a b c d =
    let (ev, low) = stack_index-vector v i g a c in
    let (ew, _) = stack_index-vector w i h b d in (ev ∙ sym ew, (i, low, stack_table stack i low))
