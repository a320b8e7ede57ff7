-- ===== src/Messaging/Mailbox/Spec.antt =====
-- What a mailbox promises, without its queue: the events accepted so far, in order, and how many of
-- them the consumer has had.
use vm_quant_trader.Prelude.{
  ℕ, zero, suc, ◌+◌, ◌-◌, Bool, true, false, not, ◌&&◌, none, some, List, [], ◌∷◌, ◌++◌, leb, ◌==◌,
  if◌then◌else◌, length,
}
use vm_quant_trader.Errors.{ok, err, bad, none_event, mailbox_closed}
use vm_quant_trader.Messaging.Mailbox.{Op, posts, takes, closes, Reply, posted, took, done}

pub record Promise {ℓ} (E : Type ℓ) : Type ℓ where
  pub limit : ℕ
  pub accepted : List E
  pub taken : ℕ
  pub lost : ℕ
  pub closed : Bool
  -- whether the consumer has been told that the mailbox is closed
  pub told : Bool

module _ {ℓ} {E : Type ℓ} where
  abbrev pub drop : ℕ → List E → List E
  drop zero xs = xs
  drop (suc n) [] = []
  drop (suc n) (x ∷ xs) = drop n xs

  abbrev pub fresh : ℕ → Promise E
  fresh limit = record {
    limit = limit;
    accepted = [];
    taken = 0;
    lost = 0;
    closed = false;
    told = false;
  }

  abbrev pub accept : E → Promise E → Reply E × Promise E
  accept e p =
      if p.closed
      then (posted (err mailbox_closed), p)
      else if not (p.limit == 0) && leb p.limit (length p.accepted - p.taken)
      then (posted (ok tt), record p { lost = p.lost + 1 })
      else (posted (ok tt), record p { accepted = p.accepted ++ e ∷ [] })

  -- The next accepted event; when there is none, the sentinel once, and then nothing.
  abbrev pub deliver : List E → Promise E → Reply E × Promise E
  deliver (e ∷ _) p = (took (some (some e)), record p { taken = p.taken + 1 })
  deliver [] p =
      if p.closed && not p.told
      then (took (some none), record p { told = true })
      else (took none, p)

  unfoldable pub promised : Op E → Promise E → Reply E × Promise E
  promised (posts none) p = (posted (err (bad none_event)), p)
  promised (posts (some e)) p = accept e p
  promised takes p = deliver (drop p.taken p.accepted) p
  promised closes p = (done, record p { closed = true })

  unfoldable pub promised_run : List (Op E) → Promise E → List (Reply E) × Promise E
  promised_run [] p = ([], p)
  promised_run (op ∷ ops) p =
      let (r, p') = promised op p in let (rs, p'') = promised_run ops p' in (r ∷ rs, p'')
