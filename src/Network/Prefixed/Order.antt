-- ===== src/Network/Prefixed/Order.antt =====
-- `PrefixedRead` of src/network/prefixed_stream.rs: the order of the bytes that its reads give.
use vine.Base.{
  ℕ, zero, suc, ◌+◌, ◌≤◌, ◌<◌, leb, [], ◌∷◌, ◌++◌, Option, none, some, Text, length, take, drop,
  length-append, length-take, length-drop, take-append-drop, append_assoc, append-nil, ◌≡◌, refl,
  sym, ◌∙◌, ap, arith, Bool-cases, inl, inr,
}
use vine.Network.Stream.{Stream, Read, pending, IsWhole, Reads, at_end, some_bytes, read-Reads}
use vine.Network.Prefixed.{
  Cursor, PrefixedRead, new, Polled, ready, poll_inner, taken, left, behind_prefix, poll_option,
  poll_read, gather, read_to_end,
}

-- What a cursor has left.
abbrev prefix_left : Option Cursor → Text
prefix_left none = []
prefix_left (some c) = drop c.position c.bytes

-- What the reader has still to give.
pub remaining : PrefixedRead → Text
remaining p = prefix_left p.prefix ++ pending p.inner

-- A poll that gives the end, or at least one byte off the front.
data Polls (size : ℕ) (all : Text) : Polled → Type 0 where
  end_of_all : {p : PrefixedRead} → all ≡ [] → Polls size all (ready [] p)
  front :
      {b : ℕ} {bs : Text} {p : PrefixedRead}
      → length (b ∷ bs) ≤ size
      → all ≡ (b ∷ bs) ++ remaining p
      → IsWhole p.inner
      → Polls size all (ready (b ∷ bs) p)

drop_nil : (n : ℕ) → drop {A = ℕ} n [] ≡ []
drop_nil zero = refl
drop_nil (suc n) = refl

drop-drop : (i j : ℕ) (t : Text) → drop j (drop i t) ≡ drop (i + j) t
drop-drop zero j t = ap (λ n. drop n t) (omega arith)
drop-drop (suc i) j [] = drop_nil j ∙ sym (drop_nil (suc i + j))
drop-drop (suc i) j (x ∷ t) =
    let one_on : suc i + j ≡ suc (i + j) = omega arith in
    drop-drop i j t ∙ ap (λ n. drop n (x ∷ t)) (sym one_on)

drop_all : (n : ℕ) (t : Text) → length t ≤ n → drop n t ≡ []
drop_all zero [] h = refl
drop_all (suc n) [] h = refl
drop_all zero (x ∷ t) h = absurd (omega arith)
drop_all (suc n) (x ∷ t) h = drop_all n t (omega arith)

take_all : (n : ℕ) (t : Text) → length t ≤ n → take n t ≡ t
take_all n t h =
    sym (append-nil (take n t)) ∙ ap (◌++◌ (take n t)) (sym (drop_all n t h)) ∙ take-append-drop n t

take_none : (n : ℕ) (t : Text) → 0 < n → take n t ≡ [] → t ≡ []
take_none zero t h e = absurd (omega arith)
take_none (suc n) [] h e = refl
take_none (suc n) (x ∷ t) h e = cc

-- The bytes off the front, whether or not the cursor is done with them.
left_lem :
    (size : ℕ) (c : Cursor) → taken size c ++ prefix_left (left size c) ≡ drop c.position c.bytes
unfolding taken left
left_lem size c =
    let t : Text = drop c.position c.bytes in
    let k : ℕ = length (take size t) in
    elim (Bool-cases (leb (length c.bytes) (c.position + k))) [
      | inl e ↦
          let all_taken : length t ≤ size =
            ground (arith, length-take size t, length-drop c.position c.bytes) in
          rw (e, append-nil (take size t)) (take_all size t all_taken)
      | inr e ↦
          let some_left : k ≡ size =
            ground (arith, length-take size t, length-drop c.position c.bytes) in
          rw (e, ← drop-drop c.position k c.bytes, some_left) (take-append-drop size t)
    ]

inner-Polls :
    (size : ℕ) (s : Stream) (o : Option Cursor) {r : Read}
    → prefix_left o ≡ []
    → Reads size s r
    → Polls size (pending s) (poll_inner o r)
unfolding poll_inner remaining
inner-Polls size s o h (at_end e) = end_of_all e
inner-Polls size s o h (some_bytes l e w) = front l (rw h e) w

behind-Polls :
    (size : ℕ) (t out : Text) (o : Option Cursor) (inner : Stream)
    → 0 < size
    → take size t ≡ out
    → out ++ prefix_left o ≡ t
    → IsWhole inner
    → Polls size (t ++ pending inner) (behind_prefix size o inner out)
unfolding behind_prefix remaining
behind-Polls size t [] o inner h e l w =
    let used_up : t ≡ [] = take_none size t h e in
    rw used_up (inner-Polls size inner o (l ∙ used_up) (read-Reads size inner h w))
behind-Polls size t (b ∷ bs) o inner h e l w =
    front (omega (arith, length-take size t, ap length e))
      (ap (λ u. u ++ pending inner) (sym l) ∙ append_assoc (b ∷ bs) (prefix_left o) (pending inner))
      w

poll_read-Polls :
    (size : ℕ) (p : PrefixedRead)
    → 0 < size
    → IsWhole p.inner
    → Polls size (remaining p) (poll_read size p)
unfolding poll_read poll_option remaining taken
poll_read-Polls size p h w =
    elim p.prefix
      as (λ o. Polls size (prefix_left o ++ pending p.inner) (poll_option size o p.inner)) [
        | none ↦ inner-Polls size p.inner none refl (read-Reads size p.inner h w)
        | some c ↦
            behind-Polls size (drop c.position c.bytes) (taken size c) (left size c) p.inner h refl
              (left_lem size c) w
      ]

gather_lem :
    (fuel size : ℕ) (all : Text) (continue : PrefixedRead → Option Text)
    → length all < suc fuel
    → ((p : PrefixedRead)
        → length (remaining p) < fuel
        → IsWhole p.inner
        → continue p ≡ some (remaining p))
    → {r : Polled} → Polls size all r
    → gather continue r ≡ some all
unfolding gather
gather_lem fuel size all continue k ih (end_of_all e) = rw e
gather_lem fuel size all continue k ih (front {b} {bs} {p} l e w) =
    rw (ih p (omega (arith, length-append (b ∷ bs) (remaining p), ap length e)) w, e)

-- With one round for each byte and one for the end, reading finds every byte that remains.
read_to_end-remaining :
    (fuel size : ℕ) (p : PrefixedRead)
    → 0 < size
    → length (remaining p) < fuel
    → IsWhole p.inner
    → read_to_end fuel size p ≡ some (remaining p)
unfolding read_to_end
read_to_end-remaining zero size p h k w = absurd (omega arith)
read_to_end-remaining (suc fuel) size p h k w =
    gather_lem fuel size (remaining p) (read_to_end fuel size) k
      (λ p' k' w'. read_to_end-remaining fuel size p' h k' w') (poll_read-Polls size p h w)

remaining-new :
    (inner : Stream) (bytes : Text) → remaining (new inner bytes) ≡ bytes ++ pending inner
unfolding remaining new
remaining-new inner [] = refl
remaining-new inner (b ∷ bs) = refl

IsWhole-new : (inner : Stream) (bytes : Text) → IsWhole inner → IsWhole (new inner bytes).inner
unfolding new
IsWhole-new inner [] w = w
IsWhole-new inner (b ∷ bs) w = w

-- Read to the end through calls with any room above 0, a prefixed reader returns the prefix and
-- then the bytes of the stream, each once and in order, where the stream does not fail; one read
-- for each byte and one more suffice.
pub read_to_end-new :
    (size : ℕ) (inner : Stream) (bytes : Text)
    → 0 < size
    → IsWhole inner
    → read_to_end (suc (length (bytes ++ pending inner))) size (new inner bytes)
      ≡ some (bytes ++ pending inner)
read_to_end-new size inner bytes h w = rw (← remaining-new inner bytes) (
    read_to_end-remaining (suc (length (remaining (new inner bytes)))) size (new inner bytes) h
      (omega arith) (IsWhole-new inner bytes w))
