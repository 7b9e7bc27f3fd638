-- ===== src/Decoy/Lifecycle/Closing.antt =====
-- What stands of the decoys of internal/decoy/decoy.go after `Close`.
use aegis_ebpf.Base.Maps.{
  find, bytes_key, pair_same, pair_same_iff, insert_elsewhere, insert_self, find-erase,
}
use aegis_ebpf.Base.{
  ◌≡◌, ◌⊎◌, inl, inr, refl, sym, ap, ◌∙◌, Bool, true, false, not, ◌&&◌, ◌||◌, List, [], ◌∷◌, Option,
  none, some, Bytes, ok, err, arith, ◌=b◌, =b_iff, Bool-cases, any, if◌then◌else◌,
}
use aegis_ebpf.Decoy.Lifecycle.{Deployer, with_error, deploy_for, remove_all, close}
use aegis_ebpf.Decoy.Lifecycle.Steps.{Life, begun, asked, ended}
use aegis_ebpf.Decoy.Lifecycle.Tracked.{
  Unique, insert-Unique, erase-Unique, any-reserved, any-confirmed, any-released,
}
use aegis_ebpf.Decoy.Policy.{reserved, admit_lem}
use aegis_ebpf.Decoy.Runs.{without, when_admitted, contains-without}
use aegis_ebpf.Decoy.{
  Trigger, Decoy, DecoyConfig, Responder, no_decoy, new_responder, admit, confirm, release, finish,
  deployed, removed_on_close,
}
use aegis_ebpf.Events.Types.{Time}
use aegis_ebpf.Go.Text.{contains}

-- A deployer whose decoys are accounted for by a key: a deployment that succeeds adds a decoy with an ID
-- under a new key, and one that fails adds nothing; a removal that succeeds takes away the decoy, and
-- nothing else goes or comes.
pub record Accountable (d : Deployer) : Type 0 where
  pub key : Decoy → Bytes × Bytes
  pub is_live : d.State → Bytes × Bytes → Bool
  pub deploy_result :
      (t : Trigger) (s : d.State)
      → ((e : d.Error) × ((d.deploy t s).0 ≡ err e)
          × ((k : Bytes × Bytes) → is_live (d.deploy t s).1 k ≡ is_live s k))
        ⊎ ((dec : Decoy) × ((d.deploy t s).0 ≡ ok dec)
            × ((dec.id =b []) ≡ false)
            × (is_live s (key dec) ≡ false)
            × ((k : Bytes × Bytes)
                → is_live (d.deploy t s).1 k ≡ (pair_same (key dec) k || is_live s k)))
  pub remove_result :
      (dec : Decoy) (s : d.State)
      → (d.remove dec s).0 ≡ none
      → (k : Bytes × Bytes)
      → is_live (d.remove dec s).1 k ≡ (not (pair_same (key dec) k) && is_live s k)

module _ (d : Deployer) (acc : Accountable d) where
  open d use {State}
  open acc use {key, is_live}

  abbrev is_one : Bytes × Bytes → Decoy → Bool
  is_one k dec = pair_same (key dec) k

  -- What stands is what stood at the start and the decoys of the map.
  record Accounts (start : State) (r : Responder) (ids : List Bytes) (s : State) : Type 0 where
    unique : Unique r.by_container
    held : (id : Bytes) → contains ids id ≡ true → find id r.by_container ≡ some no_decoy
    live :
        (k : Bytes × Bytes)
        → is_live s k ≡ (any (is_one k) (deployed r.by_container) || is_live start k)
    apart :
        (k : Bytes × Bytes)
        → any (is_one k) (deployed r.by_container) ≡ true
        → is_live start k ≡ false

  begun-Accounts : (start : State) (cfg : DecoyConfig) → Accounts start (new_responder cfg) [] start
  unfolding new_responder contains deployed
  begun-Accounts start cfg = record {
    unique = tt;
    held = λ id h. absurd (cc);
    live = λ k. refl;
    apart = λ k h. absurd (cc);
  }

  reserved-Accounts :
      (start : State) (now : Time) (r : Responder) (t : Trigger) (ids : List Bytes) (s : State)
      → find t.container_id r.by_container ≡ none
      → Accounts start r ids s
      → Accounts start (reserved now r t) (t.container_id ∷ ids) s
  unfolding contains
  reserved-Accounts start now r t ids s new a = record {
    unique = insert-Unique t.container_id no_decoy r.by_container a.unique;
    held = λ id c. elim (Bool-cases (t.container_id =b id)) [
      | inl same ↦
          rw (sym ((=b_iff t.container_id id).0 same))
            (insert_self t.container_id no_decoy r.by_container)
      | inr other ↦
          insert_elsewhere t.container_id id no_decoy r.by_container other
          ∙ a.held id (ground (arith, c, other))
    ];
    live = λ k. rw (any-reserved (is_one k) t.container_id r.by_container new) (a.live k);
    apart = λ k. rw (any-reserved (is_one k) t.container_id r.by_container new) (a.apart k);
  }

  asked-Accounts :
      (start : State) (now : Time) (r : Responder) (t : Trigger) (ids : List Bytes) (s : State)
      → Accounts start r ids s
      → Accounts start (admit now r t).1 (when_admitted (admit now r t).0 t.container_id ids) s
  asked-Accounts start now r t ids s a = elim (admit_lem now r t) [
    | inl (ad, e) ↦ rw e (reserved-Accounts start now r t ids s ad.untracked a)
    | inr (_, e) ↦ rw e a
  ]

  released-Accounts :
      (start : State) (id : Bytes) (r : Responder) (ids : List Bytes) (s s' : State)
      → contains ids id ≡ true
      → ((k : Bytes × Bytes) → is_live s' k ≡ is_live s k)
      → Accounts start r ids s
      → Accounts start (release id r) (without id ids) s'
  unfolding release
  released-Accounts start id r ids s s' c same a = record {
    unique = erase-Unique id r.by_container a.unique;
    held = λ other h.
        let (was, ne) = contains-without ids id other h in
        find-erase id other r.by_container
        ∙ ap (λ b. if b then none else find other r.by_container) ne
        ∙ a.held other was;
    live = λ k.
        rw (any-released (is_one k) id r.by_container a.unique (a.held id c)) (same k ∙ a.live k);
    apart = λ k. rw (any-released (is_one k) id r.by_container a.unique (a.held id c)) (a.apart k);
  }

  confirmed-Accounts :
      (start : State) (id : Bytes) (dec : Decoy) (r : Responder) (ids : List Bytes) (s s' : State)
      → contains ids id ≡ true
      → (dec.id =b []) ≡ false
      → is_live s (key dec) ≡ false
      → ((k : Bytes × Bytes) → is_live s' k ≡ (pair_same (key dec) k || is_live s k))
      → Accounts start r ids s
      → Accounts start (confirm id dec r) (without id ids) s'
  unfolding confirm
  confirmed-Accounts start id dec r ids s s' c ne fresh more a = record {
    unique = insert-Unique id dec r.by_container a.unique;
    held = λ other h.
        let (was, other_id) = contains-without ids id other h in
        insert_elsewhere id other dec r.by_container other_id ∙ a.held other was;
    live = λ k.
        rw (any-confirmed (is_one k) id dec r.by_container (a.held id c) ne)
          (ground (arith, more k, a.live k));
    apart = λ k. rw (any-confirmed (is_one k) id dec r.by_container (a.held id c) ne) (by_key k);
  }
    where
      by_key :
          (k : Bytes × Bytes)
          → (is_one k dec || any (is_one k) (deployed r.by_container)) ≡ true
          → is_live start k ≡ false
      by_key k h = elim (Bool-cases (pair_same (key dec) k)) [
        | inr e ↦ a.apart k (ground (arith, h, e))
        | inl e ↦
            let same = (pair_same_iff (key dec) k).0 e in
            rw (sym same) (ground (arith, fresh, a.live (key dec)))
      ]

  ended-Accounts :
      (start : State) (t : Trigger) (r : Responder) (ids : List Bytes) (s : State)
      → contains ids t.container_id ≡ true
      → Accounts start r ids s
      → Accounts start (deploy_for d t r s).0 (without t.container_id ids) (deploy_for d t r s).1
  unfolding deploy_for finish
  ended-Accounts start t r ids s c a = elim (acc.deploy_result t s) [
    | inl (e, out, same) ↦ rw out (released-Accounts start t.container_id r ids s _ c same a)
    | inr (dec, out, ne, fresh, more) ↦
        rw out (confirmed-Accounts start t.container_id dec r ids s _ c ne fresh more a)
  ]

  Life-Accounts :
      (start : State) (r : Responder) (ids : List Bytes) (s : State)
      → Life d start r ids s
      → Accounts start r ids s
  Life-Accounts start _ _ _ (begun cfg) = begun-Accounts start cfg
  Life-Accounts start _ _ _ (asked now r t ids s l) =
      asked-Accounts start now r t ids s (Life-Accounts start r ids s l)
  Life-Accounts start _ _ _ (ended t r ids s c l) =
      ended-Accounts start t r ids s c (Life-Accounts start r ids s l)

  -- A loop without an error has removed what it was given.
  remove_all_lem :
      (decs : List Decoy) (s : State)
      → (remove_all d decs s).0 ≡ []
      → (k : Bytes × Bytes)
      → is_live (remove_all d decs s).1 k ≡ (not (any (is_one k) decs) && is_live s k)
  unfolding remove_all
  remove_all_lem [] s quiet k = refl
  remove_all_lem (dec ∷ decs) s quiet k =
      by_first (d.remove dec s).0 refl quiet (λ q. remove_all_lem decs (d.remove dec s).1 q k)
    where
      by_first :
          (e : Option d.RemoveError)
          → (d.remove dec s).0 ≡ e
          → with_error e (remove_all d decs (d.remove dec s).1).0 ≡ []
          → ((remove_all d decs (d.remove dec s).1).0 ≡ []
              → is_live (remove_all d decs (d.remove dec s).1).1 k
                ≡ (not (any (is_one k) decs) && is_live (d.remove dec s).1 k))
          → is_live (remove_all d decs (d.remove dec s).1).1 k
            ≡ (not (is_one k dec || any (is_one k) decs) && is_live s k)
      by_first (some e) out q rest = absurd (cc)
      by_first none out q rest = ground (arith, acc.remove_result dec s out k, rest q)

  -- Whatever the interleaving of the calls of `Respond`: once none of them is in flight, a `Close` that is to
  -- remove the decoys and reports no error leaves exactly what stood at the start.
  pub close-Life :
      (start : State) (r : Responder) (s : State)
      → Life d start r [] s
      → r.remove_on_close ≡ true
      → (close d r s).0 ≡ []
      → (k : Bytes × Bytes) → is_live (close d r s).1 k ≡ is_live start k
  unfolding close removed_on_close
  close-Life start r s l on quiet k =
      let a = Life-Accounts start r [] s l in
      let quiet' : (remove_all d (deployed r.by_container) s).0 ≡ [] = rw on at quiet in
      rw on
        (ground (arith, a.live k, a.apart k, remove_all_lem (deployed r.by_container) s quiet' k))
