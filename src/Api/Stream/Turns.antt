-- ===== src/Api/Stream/Turns.antt =====
-- Each step of the event stream of internal/api/server.go keeps the events in order.
use mathlib.Core.List.{sublist-cons_self, Sublist, nil-sublist}
use mathlib.Core.List.Sublist
use bit_rot_detector.Base.{
  some_inj, ℕ, ◌+◌, ◌≤◌, Bool, true, false, Option, none, some, List, [], ◌∷◌, ◌++◌, ◌≡◌, refl, sym,
  ap, ◌∙◌, subst, arith, ◌==◌, nat_eq, ==_iff, ltb, length, length-append, append_assoc, if_ind,
  if◌then◌else◌,
}
use bit_rot_detector.Api.Hub.{
  ProgressEvent, ProgressHub, offer, publish, subscribe, unsubscribe, offer-fits,
}
use bit_rot_detector.Api.Stream.{emit_progress, buffer_of, set_buffer, add_written}
use bit_rot_detector.Api.Stream.Buffers.{
  Holds, Ordered, waiting_in, grow, snoc, buffer_of-offer_all, buffer_of-without,
  buffer_of-set_buffer,
}

module _ (hub : ProgressHub) (written : ℕ → List ProgressEvent) (history : List ProgressEvent) where
  dropped-Ordered :
      (e : ProgressEvent) (channel : Option (List ProgressEvent))
      → Ordered history channel hub written
      → Ordered (history ++ (e ∷ [])) channel hub written
  dropped-Ordered e channel h = record {
    sent = grow (waiting_in channel) history e h.sent;
    held = λ k. longer k (buffer_of k hub.subs) (h.held k);
    past = λ k. grow (written k) history e (h.past k);
    fresh = h.fresh;
    room = h.room;
  }
    where
      longer :
          (k : ℕ) (o : Option (List ProgressEvent))
          → Holds history (written k) (waiting_in channel) o
          → Holds (history ++ (e ∷ [])) (written k) (waiting_in channel) o
      longer k none held = tt
      longer k (some b) (part, fits) =
          (grow (written k ++ (b ++ waiting_in channel)) history e part, fits)

  taken-Ordered :
      (e : ProgressEvent) (channel : List ProgressEvent)
      → length channel + 1 ≤ 256
      → Ordered history (some channel) hub written
      → Ordered (history ++ (e ∷ [])) (some (channel ++ (e ∷ []))) hub written
  taken-Ordered e channel small h = record {
    sent = snoc channel history e h.sent;
    held = λ k. longer k (buffer_of k hub.subs) (h.held k);
    past = λ k. grow (written k) history e (h.past k);
    fresh = h.fresh;
    room = rw (length-append channel (e ∷ [])) small;
  }
    where
      longer :
          (k : ℕ) (o : Option (List ProgressEvent))
          → Holds history (written k) channel o
          → Holds (history ++ (e ∷ [])) (written k) (channel ++ (e ∷ [])) o
      longer k none held = tt
      longer k (some b) (part, fits) = (
        subst (λ l. Sublist l (history ++ (e ∷ [])))
            (append_assoc (written k) (b ++ channel) (e ∷ [])
              ∙ ap (λ l. written k ++ l) (append_assoc b channel (e ∷ [])))
            (snoc (written k ++ (b ++ channel)) history e part),
        fits,
      )

  pub emit-Ordered :
      (e : ProgressEvent) (channel : Option (List ProgressEvent))
      → Ordered history channel hub written
      → Ordered (history ++ (e ∷ [])) (emit_progress e channel) hub written
  unfolding emit_progress
  emit-Ordered e none h = dropped-Ordered e none h
  emit-Ordered e (some channel) h = go (ltb (length channel) 256) refl
    where
      go :
          (c : Bool)
          → ltb (length channel) 256 ≡ c
          → Ordered
              (history ++ (e ∷ []))
              (some (if c then channel ++ (e ∷ []) else channel))
              hub
              written
      go true small = taken-Ordered e channel (ground (arith, small)) h
      go false full = dropped-Ordered e (some channel) h

  pub forward-Ordered :
      (e : ProgressEvent) (rest : List ProgressEvent)
      → Ordered history (some (e ∷ rest)) hub written
      → Ordered history (some rest) (publish e hub) written
  unfolding publish offer
  forward-Ordered e rest h = record {
    sent = Sublist.trans (sublist-cons_self e rest) h.sent;
    held = λ k.
        subst (Holds history (written k) rest) (sym (buffer_of-offer_all e k hub.subs))
          (offered k (buffer_of k hub.subs) (h.held k));
    past = h.past;
    fresh = λ k later.
        let (gone, none_yet) = h.fresh k later in
        (
          buffer_of-offer_all e k hub.subs
              ∙ ap
                  (λ (o : Option (List ProgressEvent)).
                    elim o as (λ _. Option (List ProgressEvent)) [
                      | none ↦ none
                      | some b ↦ some (offer e b)
                    ])
                  gone,
          none_yet,
        );
    room = let r = h.room in omega (arith, r);
  }
    where
      offered :
          (k : ℕ) (o : Option (List ProgressEvent))
          → Holds history (written k) (e ∷ rest) o
          → Holds history (written k) rest (elim o as (λ _. Option (List ProgressEvent)) [
            | none ↦ none
            | some b ↦ some (offer e b)
          ])
      offered k none held = tt
      offered k (some b) (part, fits) = (room_for (ltb (length b) 64), offer-fits e b fits)
        where
          room_for :
              (c : Bool) → Sublist (written k ++ ((if c then b ++ (e ∷ []) else b) ++ rest)) history
          room_for true =
              subst (λ l. Sublist (written k ++ l) history) (sym (append_assoc b (e ∷ []) rest))
                part
          room_for false =
              Sublist.trans
                (Sublist.append (Sublist.refl (written k))
                  (Sublist.append (Sublist.refl b) (sublist-cons_self e rest)))
                part

  pub connect-Ordered :
      (channel : Option (List ProgressEvent))
      → Ordered history channel hub written
      → Ordered history channel (subscribe hub).1 written
  unfolding subscribe buffer_of
  connect-Ordered channel h = record {
    sent = h.sent;
    held = λ k. joined k (hub.next == k) refl;
    past = h.past;
    fresh = λ k later.
        let (gone, none_yet) = h.fresh k (omega (arith, later)) in
        (ap (λ c. if c then some [] else buffer_of k hub.subs) (beyond k later) ∙ gone, none_yet);
    room = h.room;
  }
    where
      beyond : (k : ℕ) → hub.next + 1 ≤ k → (hub.next == k) ≡ false
      beyond k later = ground (arith, later)

      joined :
          (k : ℕ) (c : Bool)
          → (hub.next == k) ≡ c
          → Holds history
              (written k)
              (waiting_in channel)
              (if c then some [] else buffer_of k hub.subs)
      joined k false other = h.held k
      joined k true same =
          let (_, none_yet) = h.fresh k (ground (arith, same)) in
          (
            subst (λ l. Sublist (l ++ waiting_in channel) history) (sym none_yet) h.sent,
            omega arith,
          )

  pub leave-Ordered :
      (n : ℕ) (channel : Option (List ProgressEvent))
      → Ordered history channel hub written
      → Ordered history channel (unsubscribe n hub) written
  unfolding unsubscribe
  leave-Ordered n channel h = record {
    sent = h.sent;
    held = λ k.
        subst (Holds history (written k) (waiting_in channel))
          (sym (buffer_of-without n k hub.subs))
          (if_ind (Holds history (written k) (waiting_in channel)) (k == n) tt (h.held k));
    past = h.past;
    fresh = λ k later.
        let (gone, none_yet) = h.fresh k later in
        (
          buffer_of-without n k hub.subs
              ∙ if_ind (λ (o : Option (List ProgressEvent)). o ≡ none) (k == n) refl gone,
          none_yet,
        );
    room = h.room;
  }

  pub write-Ordered :
      (n : ℕ) (e : ProgressEvent) (rest : List ProgressEvent)
      (channel : Option (List ProgressEvent))
      → buffer_of n hub.subs ≡ some (e ∷ rest)
      → Ordered history channel hub written
      → Ordered history channel
          (record hub { subs = set_buffer n rest hub.subs })
          (add_written n e written)
  write-Ordered n e rest channel found h = record {
    sent = h.sent;
    held = λ k.
        subst (Holds history (add_written n e written k) (waiting_in channel))
          (sym (buffer_of-set_buffer n k rest hub.subs))
          (wrote k (k == n) refl (buffer_of k hub.subs) refl (h.held k));
    past = λ k. sent_on k (k == n) refl;
    fresh = λ k later.
        let (gone, none_yet) = h.fresh k later in
        (
          buffer_of-set_buffer n k rest hub.subs
              ∙ ap
                  (λ (o : Option (List ProgressEvent)).
                    elim o as (λ _. Option (List ProgressEvent)) [
                      | none ↦ none
                      | some old ↦ some (if k == n then rest else old)
                    ])
                  gone,
          unread k (k == n) refl gone ∙ none_yet,
        );
    room = h.room;
  }
    where
      wrote :
          (k : ℕ) (c : Bool)
          → (k == n) ≡ c
          → (o : Option (List ProgressEvent)) → buffer_of k hub.subs ≡ o
          → Holds history (written k) (waiting_in channel) o
          → Holds history
              (if c then written k ++ (e ∷ []) else written k)
              (waiting_in channel)
              (elim o as (λ _. Option (List ProgressEvent)) [
                | none ↦ none
                | some old ↦ some (if c then rest else old)
              ])
      wrote k c same none at held = tt
      wrote k true same (some old) at (part, fits) =
          let is_next : old ≡ e ∷ rest =
            some_inj (sym at ∙ ap (λ i. buffer_of i hub.subs) ((==_iff k n).0 same) ∙ found) in
          (
            subst (λ l. Sublist l history)
                (ap (λ l. written k ++ (l ++ waiting_in channel)) is_next
                  ∙ sym (append_assoc (written k) (e ∷ []) (rest ++ waiting_in channel)))
                part,
            let shorter = ap length is_next in ground (arith, shorter, fits),
          )
      wrote k false other (some old) at held = held

      sent_on :
          (k : ℕ) (c : Bool)
          → (k == n) ≡ c
          → Sublist (if c then written k ++ (e ∷ []) else written k) history
      sent_on k false other = h.past k
      sent_on k true same =
          let at : buffer_of k hub.subs ≡ some (e ∷ rest) =
            ap (λ i. buffer_of i hub.subs) ((==_iff k n).0 same) ∙ found in
          let (part, _) = subst (Holds history (written k) (waiting_in channel)) at (h.held k) in
          Sublist.trans
            (Sublist.append (Sublist.refl (written k))
              (Sublist.append (Sublist.refl (e ∷ [])) (nil-sublist (rest ++ waiting_in channel))))
            part

      unread :
          (k : ℕ) (c : Bool)
          → (k == n) ≡ c
          → buffer_of k hub.subs ≡ none
          → (if c then written k ++ (e ∷ []) else written k) ≡ written k
      unread k false other gone = refl
      unread k true same gone =
          let at : buffer_of k hub.subs ≡ some (e ∷ rest) =
            ap (λ i. buffer_of i hub.subs) ((==_iff k n).0 same) ∙ found in
          absurd (ground (arith, at, gone))
