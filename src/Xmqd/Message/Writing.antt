-- ===== src/Xmqd/Message/Writing.antt =====
-- What a writer has of a message, when it fails and when it does not.
use xmq.Base.{
  ℕ, ◌+◌, ◌≤◌, ◌≡◌, refl, ap, sym, ◌∙◌, subst, Bool, false, true, List, [], ◌++◌, append_assoc,
  append-nil, length, length-append, take, Bool-cases, inl, inr, false≢true, arith,
}
use xmq.Xmqd.Message.{Message, Writer, write_part, write_to}
use xmq.Xmqd.Message.Bytes.{take-append_first, take-append_both, take_all}
use xmq.Xmqd.Message.Decoding.{prefix, encoded}

-- The writer keeps `contents`: a call appends the bytes that it says it took, and these are
-- all of them unless it fails.
pub record Appends {W : Type 0} (writer : Writer W) (contents : W → List ℕ) : Type 0 where
  pub most : (bs : List ℕ) (w : W) → (writer.write bs w).0 ≤ length bs
  pub whole :
      (bs : List ℕ) (w : W) → (writer.write bs w).1 ≡ false → (writer.write bs w).0 ≡ length bs
  pub appends :
      (bs : List ℕ) (w : W)
      → contents (writer.write bs w).2 ≡ contents w ++ take (writer.write bs w).0 bs

module _ {W : Type 0} (writer : Writer W) (contents : W → List ℕ)
    (law : Appends writer contents) where
  -- What came out of `bs`, after `total` bytes: all of it or, with a failure, its first bytes.
  record Came (bs : List ℕ) (w : W) (total : ℕ) (r : ℕ × Bool × W) : Type 0 where
    pub taken : ℕ
    pub count : r.0 ≡ total + taken
    pub in_whole : r.1 ≡ false → taken ≡ length bs
    pub output : contents r.2 ≡ contents w ++ take taken bs

  abbrev Writes : List ℕ → (ℕ → W → ℕ × Bool × W) → Type 0
  Writes bs next = (total : ℕ) (w : W) → Came bs w total (next total w)

  Writes-write_part :
      (bs rest : List ℕ) (next : ℕ → W → ℕ × Bool × W)
      → Writes rest next
      → Writes (bs ++ rest) (write_part writer bs next)
  unfolding write_part
  Writes-write_part bs rest next h total w =
      let n = (writer.write bs w).0 in
      let v = (writer.write bs w).2 in
      elim (Bool-cases (writer.write bs w).1) [
        | inl failed ↦
            let part : Came (bs ++ rest) w total (total + n, true, v) = record {
              taken = n;
              count = refl;
              in_whole = λ e. absurd (false≢true (sym e));
              output =
                  law.appends bs w
                  ∙ ap (λ xs. contents w ++ xs) (sym (take-append_first n bs rest (law.most bs w)));
            } in
            rw failed part
        | inr fine ↦
            let all_taken = law.whole bs w fine in
            let c = h (total + n) v in
            let both : Came (bs ++ rest) w total (next (total + n) v) = record {
              taken = length bs + c.taken;
              count = omega (arith, c.count, all_taken);
              in_whole = λ e. omega (arith, c.in_whole e, length-append bs rest);
              output =
                  c.output
                  ∙ (ap (λ xs. xs ++ take c.taken rest)
                        (law.appends bs w ∙ ap (λ xs. contents w ++ xs) (take_all n bs all_taken))
                      ∙ (append_assoc (contents w) bs (take c.taken rest)
                          ∙ ap (λ xs. contents w ++ xs)
                              (sym (take-append_both (length bs + c.taken) c.taken bs rest refl))));
            } in
            rw fine both
      ]

  Writes-nothing : Writes [] (λ total v. (total, false, v))
  Writes-nothing total w = record {
    taken = 0;
    count = omega arith;
    in_whole = λ e. refl;
    output = sym (append-nil (contents w));
  }

  Writes-message :
      (m : Message) (w : W) → Came (prefix m ++ (m.id ++ (m.body ++ []))) w 0 (write_to writer m w)
  unfolding write_to
  Writes-message m w =
      Writes-write_part (prefix m) (m.id ++ (m.body ++ [])) _
        (Writes-write_part m.id (m.body ++ []) _ (Writes-write_part m.body [] _ Writes-nothing)) 0 w

  from_start :
      (bs : List ℕ) (w : W) (r : ℕ × Bool × W)
      → Came bs w 0 r
      → (contents r.2 ≡ contents w ++ take r.0 bs) × (r.1 ≡ false → r.0 ≡ length bs)
  from_start bs w r c =
      let all_of : c.taken ≡ r.0 = omega (arith, c.count) in
      (
        c.output ∙ ap (λ (n : ℕ). contents w ++ take n bs) all_of,
        λ e. omega (arith, all_of, c.in_whole e),
      )

-- On any writer that appends the bytes it says it took, and takes all unless it fails, `WriteTo` says how many bytes the writer has taken, these are the first bytes
-- of the message in its layout, and they are all of them unless it says that it failed.
pub write_to_lem :
    {W : Type 0} (writer : Writer W) (contents : W → List ℕ)
    → Appends writer contents
    → (m : Message) (w : W)
    → (contents (write_to writer m w).2 ≡ contents w ++ take (write_to writer m w).0 (encoded m))
      × ((write_to writer m w).1 ≡ false → (write_to writer m w).0 ≡ length (encoded m))
write_to_lem writer contents law m w =
    let c : Came writer contents law (encoded m) w 0 (write_to writer m w) =
      subst (λ xs. Came writer contents law (prefix m ++ (m.id ++ xs)) w 0 (write_to writer m w))
        (append-nil m.body) (Writes-message writer contents law m w) in
    from_start writer contents law (encoded m) w (write_to writer m w) c
