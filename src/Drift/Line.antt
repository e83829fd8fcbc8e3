-- ===== src/Drift/Line.antt =====
-- A line of a drift manifest, as the format describes it.
use detour_mod_kit.Drift.Cells.{
  IsFlag, IsToken, parse_offset-from_chars, from_chars-parse_offset, parse_healed-IsFlag,
  IsFlag-parse_healed, parse_heal_error-IsToken, IsToken-parse_heal_error,
}
use detour_mod_kit.Base.{◌≡◌, refl, List, [], ◌∷◌, some, arith, >>=-eq-some}
use detour_mod_kit.Text.{Text, split}
use detour_mod_kit.Text.Decimal.{from_chars}
use detour_mod_kit.Drift.{
  field_sep, DriftRecord, parse_offset, parse_heal_error, parse_healed, parse_fields,
}

-- A line of exactly six fields, which are those of the record: its name, three numbers that take their
-- whole fields, the flag and one of the four tokens.
pub record LineOf (l : Text) (r : DriftRecord) : Type 0 where
  pub nominal : Text
  pub healed : Text
  pub moved : Text
  pub flag : Text
  pub token : Text
  pub fields : split field_sep l ≡ r.name ∷ nominal ∷ healed ∷ moved ∷ flag ∷ token ∷ []
  pub nominal_is : from_chars nominal ≡ some (r.nominal_offset, [])
  pub healed_is : from_chars healed ≡ some (r.healed_offset, [])
  pub moved_is : from_chars moved ≡ some (r.delta, [])
  pub flag_is : IsFlag r.healed flag
  pub token_is : IsToken r.error token

pub LineOf-parse_fields :
    (l : Text) (r : DriftRecord) → LineOf l r → parse_fields (split field_sep l) ≡ some r
unfolding parse_fields
LineOf-parse_fields l r h =
    rw (h.fields, parse_fields)
      (rw (from_chars-parse_offset h.nominal r.nominal_offset h.nominal_is) (
        rw (from_chars-parse_offset h.healed r.healed_offset h.healed_is) (
          rw (from_chars-parse_offset h.moved r.delta h.moved_is) (
            rw (IsFlag-parse_healed h.flag r.healed h.flag_is)
              (rw (IsToken-parse_heal_error h.token r.error h.token_is) refl)))))

-- What the parsers of the six fields have found.
record Found (r : DriftRecord) (name nominal healed moved flag token : Text) : Type 0 where
  pub name_found : r.name ≡ name
  pub nominal_found : parse_offset nominal ≡ some r.nominal_offset
  pub healed_found : parse_offset healed ≡ some r.healed_offset
  pub moved_found : parse_offset moved ≡ some r.delta
  pub flag_found : parse_healed flag ≡ some r.healed
  pub token_found : parse_heal_error token ≡ some r.error

six-Found :
    (r : DriftRecord) (name nominal healed moved flag token : Text)
    → parse_fields (name ∷ nominal ∷ healed ∷ moved ∷ flag ∷ token ∷ []) ≡ some r
    → Found r name nominal healed moved flag token
unfolding parse_fields
six-Found r name nominal healed moved flag token e =
    let (n, p, e1) = >>=-eq-some (parse_offset nominal) _ e in
    let (h, q, e2) = >>=-eq-some (parse_offset healed) _ e1 in
    let (d, u, e3) = >>=-eq-some (parse_offset moved) _ e2 in
    let (f, v, e4) = >>=-eq-some (parse_healed flag) _ e3 in
    let (c, w, e5) = >>=-eq-some (parse_heal_error token) _ e4 in
    let made : DriftRecord = record {
      name = name;
      nominal_offset = n;
      healed_offset = h;
      delta = d;
      healed = f;
      error = c;
    } in
    let is : made ≡ r = ground (arith, e5) in
    rw (← is) (record {
      name_found = refl;
      nominal_found = p;
      healed_found = q;
      moved_found = u;
      flag_found = v;
      token_found = w;
    })

pub parse_fields-LineOf :
    (l : Text) (r : DriftRecord) → parse_fields (split field_sep l) ≡ some r → LineOf l r
unfolding parse_fields
parse_fields-LineOf l r e = go (split field_sep l) refl e
  where
    go : (fs : List Text) → split field_sep l ≡ fs → parse_fields fs ≡ some r → LineOf l r
    go (name ∷ nominal ∷ healed ∷ moved ∷ flag ∷ token ∷ []) q f =
        let found = six-Found r name nominal healed moved flag token f in
        record {
          nominal = nominal;
          healed = healed;
          moved = moved;
          flag = flag;
          token = token;
          fields = rw found.name_found q;
          nominal_is = parse_offset-from_chars nominal r.nominal_offset found.nominal_found;
          healed_is = parse_offset-from_chars healed r.healed_offset found.healed_found;
          moved_is = parse_offset-from_chars moved r.delta found.moved_found;
          flag_is = parse_healed-IsFlag flag r.healed found.flag_found;
          token_is = parse_heal_error-IsToken token r.error found.token_found;
        }
    go _ q f = cc
