-- ===== src/Grants/Records/Pinned.antt =====
-- The registry that `parse_registry` reads.
use mathlib.Core.List.{append-nil}
use sjbis.Prelude.{
  String, ◌≡◌, refl, sym, ap, ◌∙◌, Bool, false, List, [], ◌∷◌, ◌++◌, map, Result, ok, err,
  Bool-cases, inl, inr, arith, any, All, is_empty, str_eq, ok-injective,
}
use sjbis.Grants.Records.{
  Codec, Signer, RegistryEntry, Registry, decode_pubkey, parse_signers, parse_registry,
}

module _ {Key : Type 0} where
  -- No later entry has the id of an earlier one.
  abbrev pub Distinct : Registry Key → Type 0
  Distinct [] = Unit
  Distinct (e ∷ es) =
      (any (λ (f : RegistryEntry Key). str_eq e.signer.id f.signer.id) es ≡ false) × Distinct es

  any-snoc :
      (p : RegistryEntry Key → Bool) (es : Registry Key) (f : RegistryEntry Key)
      → any p es ≡ false
      → p f ≡ false
      → any p (es ++ (f ∷ [])) ≡ false
  unfolding any
  any-snoc p [] f h k = ground arith
  any-snoc p (e ∷ es) f h k = ground (arith, any-snoc p es f)

  Distinct-snoc :
      (es : Registry Key) (f : RegistryEntry Key)
      → Distinct es
      → any (λ (e : RegistryEntry Key). str_eq e.signer.id f.signer.id) es ≡ false
      → Distinct (es ++ (f ∷ []))
  unfolding any
  Distinct-snoc [] f d h = (refl, tt)
  Distinct-snoc (e ∷ es) f (fresh, d) h =
      (any-snoc _ es f fresh (ground arith), Distinct-snoc es f d (ground arith))

  All-snoc :
      (P : RegistryEntry Key → Type 0) (es : Registry Key) (f : RegistryEntry Key)
      → All P es
      → P f
      → All P (es ++ (f ∷ []))
  All-snoc P [] f a p = (p, tt)
  All-snoc P (e ∷ es) f (q, a) p = (q, All-snoc P es f a p)

  abbrev pub signer_of_entry : RegistryEntry Key → Signer
  signer_of_entry e = e.signer

  signers-snoc :
      (es : Registry Key) (f : RegistryEntry Key) (rest : List Signer)
      → map signer_of_entry (es ++ (f ∷ [])) ++ rest ≡ map signer_of_entry es ++ (f.signer ∷ rest)
  signers-snoc [] f rest = refl
  signers-snoc (e ∷ es) f rest = ap (λ l. e.signer ∷ l) (signers-snoc es f rest)

module _ {Key Sig : Type 0} (codec : Codec Key Sig) where
  -- The entry's key is that of the text of its signer, whose id is not empty.
  abbrev pub IsPinned : RegistryEntry Key → Type 0
  IsPinned e = (decode_pubkey codec e.signer.pubkey ≡ ok e.key) × (is_empty e.signer.id ≡ false)

  abbrev pub IsRegistry : Registry Key → List Signer → Type 0
  IsRegistry entries signers =
      (map signer_of_entry entries ≡ signers) × All IsPinned entries × Distinct entries

  with_key :
      (acc : Registry Key) (s : Signer) (rest : List Signer) (entries : Registry Key)
      (r : Result String Key)
      → ((key : Key)
          → r ≡ ok key
          → parse_signers codec (acc ++ (record { signer = s; key = key } ∷ [])) rest ≡ ok entries
          → IsRegistry entries (map signer_of_entry acc ++ (s ∷ rest)))
      → (elim r [
        | err m ↦ err m
        | ok key ↦ parse_signers codec (acc ++ (record { signer = s; key = key } ∷ [])) rest
      ])
        ≡ ok entries
      → IsRegistry entries (map signer_of_entry acc ++ (s ∷ rest))
  with_key acc s rest entries (ok key) k h = k key refl h
  with_key acc s rest entries (err m) k h = cc

  parse_signers-IsRegistry :
      (acc : Registry Key) (signers : List Signer) {entries : Registry Key}
      → All IsPinned acc
      → Distinct acc
      → parse_signers codec acc signers ≡ ok entries
      → IsRegistry entries (map signer_of_entry acc ++ signers)
  unfolding parse_signers
  parse_signers-IsRegistry acc [] pinned distinct h =
      rw (← ok-injective h) (sym (append-nil _), pinned, distinct)
  parse_signers-IsRegistry acc (s ∷ rest) {entries} pinned distinct h =
      elim (Bool-cases (is_empty s.id)) [
        | inl blank ↦ cc (rw blank at h)
        | inr named ↦
            elim (Bool-cases (any (λ (e : RegistryEntry Key). str_eq e.signer.id s.id) acc)) [
              | inl taken ↦ cc (rw (named, taken) at h)
              | inr fresh ↦
                  with_key acc s rest entries (decode_pubkey codec s.pubkey)
                    (λ key decoded more.
                      let e : RegistryEntry Key = record { signer = s; key = key } in
                      let (same, all, apart) =
                        parse_signers-IsRegistry (acc ++ (e ∷ [])) rest
                          (All-snoc IsPinned acc e pinned (decoded, named))
                          (Distinct-snoc acc e distinct fresh) more in
                      (same ∙ signers-snoc acc e rest, all, apart))
                    (rw (named, fresh) at h)
            ]
      ]

  -- A registry that parses has the signers of the file in their order, each with the key of its own
  -- text and an id that is not empty, and no two with the same id.
  pub parse_registry-IsRegistry :
      (signers : List Signer) {entries : Registry Key}
      → parse_registry codec signers ≡ ok entries
      → IsRegistry entries signers
  unfolding parse_registry
  parse_registry-IsRegistry signers = parse_signers-IsRegistry [] signers tt tt
