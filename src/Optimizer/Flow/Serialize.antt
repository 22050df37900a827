-- ===== src/Optimizer/Flow/Serialize.antt =====
-- `serialize_basic_blocks` lists a set of blocks that the jumps do not leave.
use mathlib.Core.Path.{subst}
use lacc.Base.{
  ℕ, zero, suc, false, none, some, [], ok, >>=-eq-ok, ok_injective, ◌≡◌, ◌⊎◌, sym, ◌∙◌, Bool-cases,
  Option-cases, inl, inr,
}
use lacc.Ir.{Block, get_block}
use lacc.Optimizer.Flow.{Flow, serialize_basic_blocks}
use lacc.Optimizer.Flow.Solution.{In}
use lacc.Optimizer.Flow.Sound.{IsClosed}
use lacc.Optimizer.Flow.Order.{
  Listed, Leads, Extends, Extends-refl, Extends-trans, entered, entered-Listed, entered-Extends,
  entered-start, later-jumps,
}

module _ (w : Flow) (i : ℕ) (b : Block) (here : get_block w.blocks i ≡ ok b) (listed : Listed w)
    (w' : Flow) (ext : Extends (entered w i b) w') where
  Leads-leaf : b.jump0 ≡ none → Leads w' i
  Leads-leaf leaf = record {
    one = λ j c there e. cc (leaf, e, (later-jumps w i b here listed w' ext c there).0);
    two = λ k j c there e d. cc (leaf, e, (later-jumps w i b here listed w' ext c there).0);
  }

  Leads-single : (j : ℕ) → b.jump0 ≡ some j → b.jump1 ≡ none → In j w'.blocklist → Leads w' i
  Leads-single j to single at = record {
    one = λ k c there e.
        let same : some j ≡ some k =
          sym to ∙ sym (later-jumps w i b here listed w' ext c there).0 ∙ e in
        let same_k : j ≡ k = cc in rw (← same_k) at;
    two = λ k m c there e d. cc (single, d, (later-jumps w i b here listed w' ext c there).1);
  }

  Leads-double :
      (j k : ℕ)
      → b.jump0 ≡ some j
      → b.jump1 ≡ some k
      → In j w'.blocklist
      → In k w'.blocklist
      → Leads w' i
  Leads-double j k to to' at at' = record {
    one = λ m c there e.
        let same : some j ≡ some m =
          sym to ∙ sym (later-jumps w i b here listed w' ext c there).0 ∙ e in
        let same_m : j ≡ m = cc in rw (← same_m) at;
    two = λ n m c there e d.
        let same : some k ≡ some m =
          sym to' ∙ sym (later-jumps w i b here listed w' ext c there).1 ∙ d in
        let same_m : k ≡ m = cc in rw (← same_m) at';
  }

serialize-Extends :
    (f : ℕ) (w : Flow) (i : ℕ) (w' : Flow)
    → Listed w
    → serialize_basic_blocks f w i ≡ ok w'
    → In i w'.blocklist × Extends w w'
unfolding serialize_basic_blocks
serialize-Extends zero w i w' listed h = cc
serialize-Extends (suc f) w i w' listed h =
    let (b, here, h₁) = >>=-eq-ok (get_block w.blocks i) _ h in
    let v = entered w i b in
    let listed' = entered-Listed w i b here listed in
    elim (Bool-cases b.black) [
      | inl black ↦
          let e : w ≡ w' = ok_injective (rw black at h₁) in
          rw (← e) (listed i b here black, Extends-refl w listed)
      | inr white ↦ elim (Option-cases b.jump0) [
        | inl leaf ↦
            let e : v ≡ w' = ok_injective (rw (white, leaf) at h₁) in
            let ext = subst (Extends v) e (Extends-refl v listed') in
            (
              entered-start w i b here listed w' ext,
              entered-Extends w i b here listed w' ext (Leads-leaf w i b here listed w' ext leaf),
            )
        | inr (j, to) ↦
            let (w₁, call, h₂) =
              >>=-eq-ok (serialize_basic_blocks f v j)
                (λ u. elim b.jump1 [ none ↦ ok u | some k ↦ serialize_basic_blocks f u k ])
                (rw (white, to) at h₁) in
            let (at, ext₁) = serialize-Extends f v j w₁ listed' call in
            elim (Option-cases b.jump1) [
              | inl single ↦
                  let e : w₁ ≡ w' = ok_injective (rw single at h₂) in
                  let ext = subst (Extends v) e ext₁ in
                  (
                    entered-start w i b here listed w' ext,
                    entered-Extends w i b here listed w' ext (
                        Leads-single w i b here listed w' ext j to single
                          (subst (λ (u : Flow). In j u.blocklist) e at)),
                  )
              | inr (k, to') ↦
                  let (at', ext₂) = serialize-Extends f w₁ k w' ext₁.listed (rw to' at h₂) in
                  let ext = Extends-trans v w₁ w' ext₁ ext₂ in
                  (
                    entered-start w i b here listed w' ext,
                    entered-Extends w i b here listed w' ext
                        (Leads-double w i b here listed w' ext j k to to' (ext₂.grows j at) at'),
                  )
            ]
      ]
    ]

-- From a state with an empty list and no block colored, a call that returns lists the block that it
-- starts from, and the jumps of the listed blocks lead to listed blocks.
pub serialize_basic_blocks-IsClosed :
    (f : ℕ) (w : Flow) (i : ℕ) (w' : Flow)
    → w.blocklist ≡ []
    → ((k : ℕ) (b : Block) → get_block w.blocks k ≡ ok b → b.black ≡ false)
    → serialize_basic_blocks f w i ≡ ok w'
    → In i w'.blocklist × IsClosed w'.blocks w'.blocklist
serialize_basic_blocks-IsClosed f w i w' empty white h =
    let (start, ext) =
      serialize-Extends f w i w' (λ k b there black. cc (white k b there, black)) h in
    let leads = λ (k : ℕ) (at : In k w'.blocklist). only w w' k empty (ext.leads k at) in
    (
      start,
      record {
        first = λ k j b at there e. (leads k at).one j b there e;
        second = λ k m j b at there e d. (leads k at).two m j b there e d;
      },
    )
  where
    only : (w w' : Flow) (k : ℕ) → w.blocklist ≡ [] → In k w.blocklist ⊎ Leads w' k → Leads w' k
    only w w' k e (inr l) = l
    only w w' k e (inl at) = absurd (elim (subst (In k) e at) [ ])
