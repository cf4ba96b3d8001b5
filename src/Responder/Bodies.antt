-- ===== src/Responder/Bodies.antt =====
-- The bound of `_read_body`.
use lacme.Prelude.{
  ◌≤◌, ◌≡◌, ◌↔◌, refl, sym, ap, ◌∙◌, inl, inr, true, false, List, [], ◌∷◌, ◌++◌, ltb, if◌then◌else◌,
  Str, length, length-append, ok, raise, value_error, ok-injective, ltb→lt, ltb-false→le,
  Bool-cases, arith,
}
use mathlib.Core.List.{append_assoc, append-nil}
use lacme.Responder.Request.{Message, max_body_size, read_messages, read_body}

-- The bodies up to the first message that no other follows.
unfoldable pub joined : List Message → Str
joined [] = []
joined (m ∷ ms) = let rest = joined ms in if m.more_body then m.body ++ rest else m.body

within :
    (b result : Str)
    → result ≡ b
    → length result ≤ max_body_size
    → ltb max_body_size (length b) ≡ false
within b result e h = let h' = rw e at h in ground arith

capped :
    (b result : Str)
    → ((if ltb max_body_size (length b) then raise value_error else ok b) ≡ ok result)
      ↔ ((result ≡ b) × (length result ≤ max_body_size))
capped b result = (accepts, λ (e, h). rw (within b result e h) (ap ok (sym e)))
  where
    accepts :
        (if ltb max_body_size (length b) then raise value_error else ok b) ≡ ok result
        → (result ≡ b) × (length result ≤ max_body_size)
    accepts h = elim (Bool-cases (ltb max_body_size (length b))) [
      | inl long ↦ absurd (cc (rw long at h))
      | inr fits ↦
          let e = ok-injective (rw fits at h) in
          (sym e, rw (← e) (ltb-false→le max_body_size (length b) fits))
    ]

too_long :
    (b rest result : Str)
    → ltb max_body_size (length b) ≡ true
    → result ≡ b ++ rest
    → length result ≤ max_body_size
    → ⊥
too_long b rest result long e h =
    let h' = rw (e, length-append) at h in omega (arith, ltb→lt max_body_size (length b) long)

joined-cons :
    (m : Message) (ms : List Message)
    → joined (m ∷ ms) ≡ m.body ++ (if m.more_body then joined ms else [])
unfolding joined
joined-cons m ms = elim (Bool-cases m.more_body) [
  | inl more ↦ rw more refl
  | inr last ↦ rw last (sym (append-nil m.body))
]

read_messages-ok_iff :
    (body : Str) (ms : List Message) (result : Str)
    → (read_messages body ms ≡ ok result)
      ↔ ((result ≡ body ++ joined ms) × (length result ≤ max_body_size))
unfolding read_messages joined
read_messages-ok_iff body [] result = rw append-nil (capped body result)
read_messages-ok_iff body (m ∷ ms) result =
    elim (Bool-cases (ltb max_body_size (length (body ++ m.body)))) [
      | inl long ↦ rw long (
        λ h. absurd (cc),
        λ (e, h). absurd (
            too_long (body ++ m.body) _ result long
              (e ∙ ap (◌++◌ body) (joined-cons m ms) ∙ sym (append_assoc body m.body _)) h),
      )
      | inr fits ↦ elim (Bool-cases m.more_body) [
        | inl more ↦
            rw (fits, more, ← append_assoc) (read_messages-ok_iff (body ++ m.body) ms result)
        | inr last ↦ rw (fits, last) (rw fits at (capped (body ++ m.body) result))
      ]
    ]

-- `read_body` returns a text exactly when it is what the messages carry up to the last of them, in at
-- most 65,536 bytes; otherwise it raises.
pub read_body-ok_iff :
    (ms : List Message) (result : Str)
    → (read_body ms ≡ ok result) ↔ ((result ≡ joined ms) × (length result ≤ max_body_size))
unfolding read_body
read_body-ok_iff ms result = read_messages-ok_iff [] ms result
