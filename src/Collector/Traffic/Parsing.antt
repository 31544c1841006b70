-- ===== src/Collector/Traffic/Parsing.antt =====
-- What `_parse_blocks` of src/miry/collector/traffic.py accepts.
use miry_data_collector.Base.{
  ℕ, ◌+◌, ◌-◌, ◌≤◌, ◌≡◌, refl, sym, ap, subst, ◌∙◌, Bool, true, false, not, Option, none, some,
  List, [], ◌∷◌, ◌++◌, ◌==◌, All, append_assoc, append-nil, arith,
}
use miry_data_collector.Base.Text.{Text, text_eq_refl}
use miry_data_collector.Base.Dict.{Dict, insert, All-insert}
use miry_data_collector.Base.Keys.{keys, IsDict, insert-IsDict, insert-append, keys-append}
use miry_data_collector.Base.Counting.{count}
use miry_data_collector.Base.Result.{
  ok, ◌>>=◌, ◌>>◌, raise_if, >>=-eq-ok, raise_if-eq-ok, ok-injective,
}
use miry_data_collector.Base.Json.{
  Value, Elements, Members, no_elements, element, no_members, member, get, int_of, plain_int_of,
  elements_of, members_of, equals_int,
}
use miry_data_collector.Contracts.Symbols.{TextMethods}
use miry_data_collector.Collector.Traffic.{MessageRateBlock}
use miry_data_collector.Collector.Traffic.State.{
  required, invalid_rate, not_sixty_minutes, not_ordered, rates_not_an_object, minutes_not_integers,
  block_not_an_object, unsupported_state, blocks_not_a_list, start_key, end_key, rates_key,
  version_key, blocks_key, rate_members, block_value, block_elements, payload_of, is_early, is_rate,
  parse_rates, block_of, rated, with_rates, after_minutes, dated, with_first, checked, parse_block,
  parse_elements, listed, versioned, parse_blocks,
}

module _ (M : TextMethods) where
  -- Positive rates of distinct exchange symbols.
  abbrev pub IsRates : Dict ℕ → Type 0
  IsRates rates = IsDict rates × All (λ e. is_rate M e.0 e.1 ≡ true) rates

  pub record IsBlock (previous_end : Option ℕ) (b : MessageRateBlock) : Type 0 where
    pub sixty_minutes : b.end_minute ≡ b.start_minute + 59
    pub in_order : is_early previous_end b.start_minute ≡ false
    pub positive : IsRates b.rates

  -- Blocks of sixty minutes, each after the one before.
  abbrev pub IsState : Option ℕ → List MessageRateBlock → Type 0
  IsState previous_end [] = Unit
  IsState previous_end (b ∷ bs) = IsBlock previous_end b × IsState (some b.end_minute) bs

  parse_rates-of_members :
      (d acc : Dict ℕ)
      → ((s : Text) → count s (keys acc) + count s (keys d) ≤ 1)
      → All (λ e. is_rate M e.0 e.1 ≡ true) d
      → parse_rates M (rate_members d) acc ≡ ok (acc ++ d)
  unfolding parse_rates
  parse_rates-of_members [] acc h k = ap ok (sym (append-nil acc))
  parse_rates-of_members ((s, n) ∷ d) acc h (p, rest) = rw p (
      parse_rates-of_members d (insert s n acc) later rest
      ∙ ap ok (ap (λ a. a ++ d) added ∙ append_assoc acc _ d))
    where
      added : insert s n acc ≡ acc ++ ((s, n) ∷ [])
      added = insert-append s n acc (ground (arith, h s, text_eq_refl s))

      later : (t : Text) → count t (keys (insert s n acc)) + count t (keys d) ≤ 1
      later t =
          subst (λ a. count t (keys a) + count t (keys d) ≤ 1) (sym added)
            (ground (arith, h t, keys-append t acc ((s, n) ∷ [])))

  parse_block-of_value :
      (previous_end : Option ℕ) (b : MessageRateBlock)
      → IsBlock previous_end b
      → parse_block M previous_end (block_value b) ≡ ok b
  unfolding parse_block
  parse_block-of_value previous_end b h =
      rw
        (
          sixty,
          h.in_order,
          parse_rates-of_members b.rates [] (λ s. omega (arith, h.positive.0 s)) h.positive.1,
        )
        refl
    where
      sixty : (b.end_minute - b.start_minute == 59) ≡ true
      sixty = ground (arith, h.sixty_minutes)

  pub parse_elements-of_blocks :
      (previous_end : Option ℕ) (bs : List MessageRateBlock)
      → IsState previous_end bs
      → parse_elements M previous_end (block_elements bs) ≡ ok bs
  unfolding parse_elements
  parse_elements-of_blocks previous_end [] h = refl
  parse_elements-of_blocks previous_end (b ∷ bs) (p, rest) =
      rw
        (
          parse_block-of_value previous_end b p,
          parse_elements-of_blocks (some b.end_minute) bs rest,
        )
        refl

  pub parse_blocks-of_payload :
      (bs : List MessageRateBlock) → IsState none bs → parse_blocks M (payload_of bs) ≡ ok bs
  unfolding parse_blocks
  parse_blocks-of_payload bs h = parse_elements-of_blocks none bs h

  parse_rates-IsRates :
      (members : Members) (acc rates : Dict ℕ)
      → IsRates acc
      → parse_rates M members acc ≡ ok rates
      → IsRates rates
  unfolding parse_rates
  parse_rates-IsRates no_members acc rates h e = subst IsRates (ok-injective e) h
  parse_rates-IsRates (member s v members) acc rates h e =
      let (n, _, e1) =
        >>=-eq-ok (required (plain_int_of v) invalid_rate)
          (λ rate.
            raise_if (not (is_rate M s rate)) invalid_rate
            >> parse_rates M members (insert s rate acc))
          e in
      let (valid, e2) =
        raise_if-eq-ok (not (is_rate M s n)) invalid_rate (parse_rates M members (insert s n acc))
          e1 in
      parse_rates-IsRates members (insert s n acc) rates
        (
          insert-IsDict s n acc h.0,
          All-insert (λ f. is_rate M f.0 f.1 ≡ true) s n acc (λ j same. rw same (not_false valid))
              h.1,
        )
        e2
    where
      not_false : {b : Bool} → not b ≡ false → b ≡ true
      not_false {b} f = ground (arith, f)

  module _ (previous_end : Option ℕ) (b : MessageRateBlock) where
    rated-IsBlock :
        (first last : ℕ) (raw : Members)
        → last ≡ first + 59
        → is_early previous_end first ≡ false
        → rated M first last raw ≡ ok b
        → IsBlock previous_end b
    rated-IsBlock first last raw minutes early e =
        let (rates, f, g) = >>=-eq-ok (parse_rates M raw []) (block_of M first last) e in
        subst (IsBlock previous_end) (ok-injective g) (record {
          sixty_minutes = minutes;
          in_order = early;
          positive = parse_rates-IsRates raw [] rates (none_yet, tt) f;
        })
      where
        none_yet : IsDict {V = ℕ} []
        none_yet s = omega arith

    dated-IsBlock :
        (members : Members) (first last : ℕ)
        → dated M previous_end members first last ≡ ok b
        → IsBlock previous_end b
    dated-IsBlock members first last e =
        let (minutes, e1) =
          raise_if-eq-ok (not (last - first == 59)) not_sixty_minutes
            (after_minutes M previous_end members first last) e in
        let (early, e2) =
          raise_if-eq-ok (is_early previous_end first) not_ordered (with_rates M members first last)
            e1 in
        let (raw, _, e3) =
          >>=-eq-ok (required (members_of (get rates_key members)) rates_not_an_object)
            (rated M first last) e2 in
        rated-IsBlock first last raw (ground (arith, minutes)) early e3

    parse_block-IsBlock :
        (value : Value) → parse_block M previous_end value ≡ ok b → IsBlock previous_end b
    unfolding parse_block
    parse_block-IsBlock value e =
        let (members, _, e1) =
          >>=-eq-ok (required (members_of value) block_not_an_object) (checked M previous_end) e in
        let (first, _, e2) =
          >>=-eq-ok (required (int_of (get start_key members)) minutes_not_integers)
            (with_first M previous_end members) e1 in
        let (last, _, e3) =
          >>=-eq-ok (required (int_of (get end_key members)) minutes_not_integers)
            (dated M previous_end members first) e2 in
        dated-IsBlock members first last e3

  pub parse_elements-IsState :
      (previous_end : Option ℕ) (elements : Elements) (bs : List MessageRateBlock)
      → parse_elements M previous_end elements ≡ ok bs
      → IsState previous_end bs
  unfolding parse_elements
  parse_elements-IsState previous_end no_elements bs e =
      subst (IsState previous_end) (ok-injective e) tt
  parse_elements-IsState previous_end (element value elements) bs e =
      let (b, f, e1) =
        >>=-eq-ok (parse_block M previous_end value)
          (λ block. parse_elements M (some block.end_minute) elements >>= λ rest. ok (block ∷ rest))
          e in
      let (rest, g, e2) =
        >>=-eq-ok (parse_elements M (some b.end_minute) elements) (λ rest. ok (b ∷ rest)) e1 in
      subst (IsState previous_end) (ok-injective e2) (
        parse_block-IsBlock previous_end b value f,
        parse_elements-IsState (some b.end_minute) elements rest g,
      )

  pub parse_blocks-IsState :
      (payload : Value) (bs : List MessageRateBlock)
      → parse_blocks M payload ≡ ok bs
      → IsState none bs
  unfolding parse_blocks
  parse_blocks-IsState payload bs e =
      let (members, _, e1) =
        >>=-eq-ok (required (members_of payload) unsupported_state) (versioned M) e in
      let (_, e2) =
        raise_if-eq-ok (not (equals_int 1 (get version_key members))) unsupported_state
          (listed M members) e1 in
      let (elements, _, e3) =
        >>=-eq-ok (required (elements_of (get blocks_key members)) blocks_not_a_list)
          (parse_elements M none) e2 in
      parse_elements-IsState none elements bs e3
