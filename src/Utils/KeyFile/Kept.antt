-- ===== src/Utils/KeyFile/Kept.antt =====
-- The key pair of src/utils/node_keys.rs, once it is loaded or generated, is the one that is loaded
-- later.
use hush_net_backend.Prelude.{String, ◌≡◌, refl, sym, ap, ◌∙◌, subst, Option, none, some, arith}
use hush_net_backend.Models.{Value}
use hush_net_backend.Store.{Env, World, ok}
use hush_net_backend.Store.Inversion.{bind_elim, ok_or_elim, gets_step, pure-eq-ok, ok_or-eq-ok}
use hush_net_backend.Web.{NodeKeys}
use hush_net_backend.Utils.KeyFile.Steps.{
  SameFile, SameFile-at, SameFile-trans, make_dir-SameFile, path-SameFile, write-Wrote,
  read_file-FileRead,
}
use hush_net_backend.Utils.KeyFile.{
  io_error, json_error, make_dir, write_file, read_file, get_node_keys_path, keys_to_value,
  new_keys, keys_of_value, generate_and_save, read_keys, read_or_generate, load_or_generate,
}

-- The file holds the key pair.
pub record Holds (keys : NodeKeys) (w : World) : Type 0 where
  pub contents : String
  pub value : Value
  pub in_file : w.key_file ≡ some contents
  pub parses : w.env.parse_json contents ≡ some value
  pub decodes : keys_of_value value ≡ some keys

-- serde_json reads back the key pair that it wrote.
abbrev pub PrettyReadsBack : Env → Type 0
PrettyReadsBack env =
    (keys : NodeKeys)
    → env.parse_json (env.pretty_text (keys_to_value keys)) ≡ some (keys_to_value keys)

-- what a call that returned left behind: the pair in the file, and no request
pub record Loaded (keys : NodeKeys) (w v : World) : Type 0 where
  pub holds : Holds keys v
  pub env_kept : v.env ≡ w.env
  pub sent_kept : v.sent ≡ w.sent

generate-Loaded :
    (w v : World) (keys : NodeKeys)
    → PrettyReadsBack w.env
    → generate_and_save w ≡ (ok keys, v)
    → Loaded keys w v
unfolding generate_and_save
generate-Loaded w v keys codec e =
    bind_elim get_node_keys_path _ (gets_step _ _ (gets_step _ _ e)) (λ _ w1 found e1.
      bind_elim (make_dir io_error) _ e1 (λ _ w2 made e2.
        bind_elim (write_file _) _ e2 (λ _ w3 saved e3.
          let value = keys_to_value (new_keys w.env (w.env.random w.calls)) in
          let s1 = SameFile-at get_node_keys_path (path-SameFile w) found in
          let s2 =
            SameFile-trans s1
              (SameFile-at (make_dir io_error) (make_dir-SameFile io_error w1) made) in
          let wrote = write-Wrote _ w2 w3 saved in
          let (same, next) = pure-eq-ok _ e3 in
          let env3 : w3.env ≡ w.env = wrote.env_same ∙ s2.same_env in
          subst (λ (x : World). Loaded keys w x) next
            (subst (λ k. Loaded k w w3) same
              (record {
                holds = record {
                  contents = w.env.pretty_text value;
                  value = value;
                  in_file = wrote.written;
                  parses =
                      ap (λ (env : Env). env.parse_json (w.env.pretty_text value)) env3
                      ∙ codec (new_keys w.env (w.env.random w.calls));
                  decodes = refl;
                };
                env_kept = env3;
                sent_kept = wrote.sent_same ∙ s2.same_sent;
              })))))

read_keys-Loaded :
    (w v : World) (keys : NodeKeys) → read_keys w ≡ (ok keys, v) → Loaded keys w v × Holds keys w
read_keys-Loaded w v keys e = bind_elim read_file _ e (λ text u got e1.
    let r = read_file-FileRead text w u got in
    ok_or_elim (u.env.parse_json text) json_error _ (gets_step _ _ e1) (λ value parses e2.
      let (decodes, next) = ok_or-eq-ok (keys_of_value value) json_error u e2 in
      let held : Holds keys u = record {
        contents = text;
        value = value;
        in_file = r.unchanged.same_file ∙ r.read;
        parses = parses;
        decodes = decodes;
      } in
      (
        record {
          holds = subst (Holds keys) next held;
          env_kept = ap (λ (x : World). x.env) (sym next) ∙ r.unchanged.same_env;
          sent_kept = ap (λ (x : World). x.sent) (sym next) ∙ r.unchanged.same_sent;
        },
        record {
          contents = text;
          value = value;
          in_file = r.read;
          parses =
              subst (λ (env : Env). env.parse_json text ≡ some value) r.unchanged.same_env parses;
          decodes = decodes;
        },
      )))

Holds-same :
    {keys : NodeKeys} (w v : World)
    → v.key_file ≡ w.key_file
    → v.env.parse_json ≡ w.env.parse_json
    → Holds keys w
    → Holds keys v
Holds-same w v file env h = record {
  contents = h.contents;
  value = h.value;
  in_file = file ∙ h.in_file;
  parses = ap (λ (parse : String → Option Value). parse h.contents) env ∙ h.parses;
  decodes = h.decodes;
}

some-injective : {A : Type 0} {a b : A} → ◌≡◌ {A = Option A} (some a) (some b) → a ≡ b
some-injective h = ground arith

-- A file holds one key pair.
Holds-unique : {j k : NodeKeys} (w : World) → Holds j w → Holds k w → j ≡ k
Holds-unique {j} {k} w h g =
    let contents = some-injective (sym h.in_file ∙ g.in_file) in
    let value = some-injective (sym h.parses ∙ ap (λ s. w.env.parse_json s) contents ∙ g.parses) in
    some-injective (sym h.decodes ∙ ap keys_of_value value ∙ g.decodes)

read_or_generate-Loaded :
    (o : Option String) (w v : World) (keys : NodeKeys)
    → PrettyReadsBack w.env
    → read_or_generate o w ≡ (ok keys, v)
    → Loaded keys w v
read_or_generate-Loaded none w v keys codec e = generate-Loaded w v keys codec e
read_or_generate-Loaded (some _) w v keys codec e = (read_keys-Loaded w v keys e).0

Loaded-from : (w u v : World) (keys : NodeKeys) → SameFile w u → Loaded keys u v → Loaded keys w v
Loaded-from w u v keys s l = record {
  holds = l.holds;
  env_kept = l.env_kept ∙ s.same_env;
  sent_kept = l.sent_kept ∙ s.same_sent;
}

-- A call that returns leaves the pair in the file.
pub load-Loaded :
    (w v : World) (keys : NodeKeys)
    → PrettyReadsBack w.env
    → load_or_generate w ≡ (ok keys, v)
    → Loaded keys w v
unfolding load_or_generate
load-Loaded w v keys codec e = bind_elim get_node_keys_path _ e (λ _ u found rest.
    let s = SameFile-at get_node_keys_path (path-SameFile w) found in
    Loaded-from w u v keys s (
      read_or_generate-Loaded u.key_file u v keys (subst PrettyReadsBack (sym s.same_env) codec)
        (gets_step _ _ rest)))

held_is_read :
    (o : Option String) (w v : World) (held keys : NodeKeys)
    → w.key_file ≡ o
    → Holds held w
    → read_or_generate o w ≡ (ok keys, v)
    → (keys ≡ held) × Loaded keys w v
held_is_read none w v held keys file h e = absurd (no_file (sym file ∙ h.in_file))
  where
    no_file : ¬ (◌≡◌ {A = Option String} none (some h.contents))
    no_file k = ground arith
held_is_read (some _) w v held keys file h e =
    let (loaded, now) = read_keys-Loaded w v keys e in (Holds-unique w now h, loaded)

-- A file that holds a pair is read.
pub load-held :
    (w v : World) (held keys : NodeKeys)
    → Holds held w
    → load_or_generate w ≡ (ok keys, v)
    → (keys ≡ held) × Loaded keys w v
unfolding load_or_generate
load-held w v held keys h e = bind_elim get_node_keys_path _ e (λ _ u found rest.
    let s = SameFile-at get_node_keys_path (path-SameFile w) found in
    let (same, l) =
      held_is_read u.key_file u v held keys refl
        (Holds-same w u s.same_file (ap (λ (x : Env). x.parse_json) s.same_env) h)
        (gets_step _ _ rest) in
    (same, Loaded-from w u v keys s l))

-- The key pair of a node stays: what one call of load_or_generate has returned, generated or read, is
-- what any later call returns, as long as the file is left alone and serde_json reads back what it
-- wrote.
pub keys_stay :
    (w v w' v' : World) (keys keys' : NodeKeys)
    → PrettyReadsBack w.env
    → load_or_generate w ≡ (ok keys, v)
    → w'.key_file ≡ v.key_file
    → w'.env.parse_json ≡ w.env.parse_json
    → load_or_generate w' ≡ (ok keys', v')
    → keys' ≡ keys
keys_stay w v w' v' keys keys' codec first file env second =
    let l = load-Loaded w v keys codec first in
    (load-held w' v' keys keys'
      (Holds-same v w' file (env ∙ ap (λ (x : Env). x.parse_json) (sym l.env_kept)) l.holds)
      second).0
