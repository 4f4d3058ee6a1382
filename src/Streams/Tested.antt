-- ===== src/Streams/Tested.antt =====
-- dashboard/src/folio/Streams.tsx, `WebGalleryEditor`: the runs of the editor, with the previews
-- under way and the keys of the configurations whose preview succeeded.
use ok_folio.Prelude.{
  subst, List, [], ◌∷◌, ◌++◌, Option, none, some, true, ◌≡◌, ◌≢◌, ◌⊎◌, refl, sym, ◌∙◌, arith, inl,
  inr, is_nil, Bool-cases, ap,
}
use ok_folio.Prelude.Text.{Text, text_eq_sound, text_eq_refl}
use ok_folio.Actions.{Outcome, resolved, rejected}
use ok_folio.Destinations.{destination_gate_message}
use ok_folio.Keywords.{has_text}
use ok_folio.Streams.{WebGalleryForm, WebGalleryConfig, form_config, initial_form}
use ok_folio.Streams.Editor.{
  create, edit, keeps_preview, save_request, save_input, merged_config, request_input, Mode,
  EditorState, Change, PreviewResponse, SourceRequest, mode_source, source_enabled, current_key,
  opened, set_value, begin_test, end_test, begin_save, end_save, can_save_enabled, preview_ok,
}

-- The editor, the previews with no answer yet, and the keys that passed, the latest first.
pub record Session : Type 0 where
  pub editor : EditorState
  pub testing : List WebGalleryConfig
  pub passed : List Text

-- The fields besides those of the form that a saved configuration keeps.
abbrev pub kept_fields : Mode → List (Text × Text)
kept_fields create = []
kept_fields (edit source) = elim source.config [ none ↦ [] | some old ↦ old.extra ]

-- The configuration that a save of the form sends.
abbrev sent_config : Mode → WebGalleryForm → WebGalleryConfig
sent_config m form = record (form_config form) { extra = kept_fields m }

merged_config_lem :
    (old : Option WebGalleryConfig) (form : WebGalleryForm)
    → merged_config old (form_config form)
      ≡ record (form_config form) { extra = elim old [ none ↦ [] | some c ↦ c.extra ] }
unfolding merged_config form_config
merged_config_lem none form = refl
merged_config_lem (some c) form = refl

save_request_input :
    (m : Mode) (form : WebGalleryForm)
    → ((request_input (save_request m form)).config ≡ some (sent_config m form))
      × ((request_input (save_request m form)).enabled ≡ form.enabled)
unfolding save_request save_input merged_config form_config
save_request_input create form = (refl, refl)
save_request_input (edit source) form =
    (ap (λ c. some c) (merged_config_lem source.config form), refl)

module _ (stringify : WebGalleryConfig → Text) (mode : Mode) where
  abbrev pub start : Session
  start = record { editor = opened stringify mode; testing = []; passed = [] }

  abbrev pub pass : WebGalleryConfig → Outcome PreviewResponse → List Text → List Text
  pass config (resolved result) keys = stringify config ∷ keys
  pass config (rejected err) keys = keys

  pub data Step : Session → Session → Type 0 where
    valued :
        (change : Change) (s : Session) → Step s (record s { editor = set_value change s.editor })
    tested :
        (s : Session)
        → Step s (record s {
          editor = (begin_test stringify s.editor).0;
          testing = s.testing ++ (begin_test stringify s.editor).1 ∷ [];
        })
    previewed :
        (before after : List WebGalleryConfig) (config : WebGalleryConfig)
        (o : Outcome PreviewResponse) (s : Session)
        → s.testing ≡ before ++ config ∷ after
        → Step s (record {
          editor = end_test stringify config o s.editor;
          testing = before ++ after;
          passed = pass config o s.passed;
        })
    saved : (s : Session) → Step s (record s { editor = (begin_save stringify mode s.editor).0 })
    answered :
        (o : Outcome (Unit {0})) (s : Session) → Step s (record s { editor = end_save o s.editor })

  pub data Reach : Session → Type 0 where
    here : Reach start
    next : {s t : Session} → Reach s → Step s t → Reach t

  -- The key of the configuration that the editor opened with.
  abbrev pub opening_key : Text
  opening_key = stringify (form_config (initial_form (mode_source mode)))

  -- The key was tested, or it is that of a source that was enabled when the editor opened.
  abbrev pub Vetted : Text → List Text → Type 0
  Vetted key passed =
      (has_text key passed ≡ true) ⊎ ((source_enabled mode ≡ true) × (key ≡ opening_key))

  -- The key of the preview is empty or vetted.
  abbrev IsVetted : Session → Type 0
  IsVetted s = (s.editor.preview_key ≡ []) ⊎ Vetted s.editor.preview_key s.passed

  -- A change drops the key or keeps it.
  set_value_key :
      (change : Change) (s : EditorState)
      → ((set_value change s).preview_key ≡ []) ⊎ ((set_value change s).preview_key ≡ s.preview_key)
  unfolding set_value
  set_value_key change s = elim (Bool-cases (keeps_preview change)) [
    | inl kept ↦ rw kept (inr refl)
    | inr dropped ↦ rw dropped (inl refl)
  ]

  begin_save_key : (s : EditorState) → (begin_save stringify mode s).0.preview_key ≡ s.preview_key
  unfolding begin_save
  begin_save_key s = ground arith

  end_save_key :
      (o : Outcome (Unit {0})) (s : EditorState) → (end_save o s).preview_key ≡ s.preview_key
  unfolding end_save
  end_save_key (resolved done) s = refl
  end_save_key (rejected err) s = refl

  Step-IsVetted : {s t : Session} → Step s t → IsVetted s → IsVetted t
  unfolding begin_test end_test
  Step-IsVetted (Step.valued change s) v = elim (set_value_key change s.editor) [
    | inl dropped ↦ inl dropped
    | inr kept ↦ rw kept v
  ]
  Step-IsVetted (Step.tested s) v = v
  Step-IsVetted (Step.previewed before after config (resolved result) s among) v =
      inr (inl (ground (arith, text_eq_refl (stringify config))))
  Step-IsVetted (Step.previewed before after config (rejected err) s among) v = inl refl
  Step-IsVetted (Step.saved s) v = rw (begin_save_key s.editor) v
  Step-IsVetted (Step.answered o s) v = rw (end_save_key o s.editor) v

  opened-IsVetted : IsVetted start
  unfolding opened
  opened-IsVetted = elim (Bool-cases (source_enabled mode)) [
    | inl on ↦ rw on (inr (inr (refl, refl)))
    | inr off ↦ rw off (inl refl)
  ]

  Reach-IsVetted : {s : Session} → Reach s → IsVetted s
  Reach-IsVetted Reach.here = opened-IsVetted
  Reach-IsVetted (Reach.next r step) = Step-IsVetted step (Reach-IsVetted r)

  -- What the save sends, where it sends something.
  begin_save_lem :
      (s : EditorState) (request : SourceRequest)
      → (begin_save stringify mode s).1 ≡ some request
      → (can_save_enabled stringify mode s ≡ true)
        × (is_nil (destination_gate_message s.form.target_folio_id s.form.show_in_library) ≡ true)
        × (save_request mode s.form ≡ request)
  unfolding begin_save
  begin_save_lem s request sends = elim (Bool-cases (can_save_enabled stringify mode s)) [
    | inr refused ↦ ground arith
    | inl able ↦
        elim (Bool-cases
          (is_nil (destination_gate_message s.form.target_folio_id s.form.show_in_library))) [
            | inr gated ↦ ground arith
            | inl clear ↦ (able, clear, ground arith)
          ]
  ]

  -- The key of the preview is that of the form where an enabled form may be saved.
  previewed_key :
      (s : EditorState)
      → can_save_enabled stringify mode s ≡ true
      → s.form.enabled ≡ true
      → s.preview_key ≡ current_key stringify s
  unfolding can_save_enabled preview_ok
  previewed_key s able on = text_eq_sound s.preview_key (current_key stringify s) (ground arith)

  -- In every run of the editor, a configuration that is saved enabled has, without the fields that
  -- the form does not know, the key of one whose preview succeeded in that run, or the key with
  -- which the editor opened on an enabled source; and its other fields are those of the source's
  -- stored configuration, if any. No configuration may print as the empty text.
  pub enabled_save-Vetted :
      (s : Session) (request : SourceRequest)
      → ((config : WebGalleryConfig) → stringify config ≢ [])
      → Reach s
      → (begin_save stringify mode s.editor).1 ≡ some request
      → (request_input request).enabled ≡ true
      → (config : WebGalleryConfig) × ((request_input request).config ≡ some config)
        × Vetted (stringify (record config { extra = [] })) s.passed
        × (config.extra ≡ kept_fields mode)
  unfolding form_config
  enabled_save-Vetted s request solid r sends on =
      let (able, clear, same) = begin_save_lem s.editor request sends in
      let (sent, enabled) = save_request_input mode s.editor.form in
      let key =
        previewed_key s.editor able (sym enabled ∙ ap (λ q. (request_input q).enabled) same ∙ on) in
      (
        sent_config mode s.editor.form,
        ap (λ q. (request_input q).config) (sym same) ∙ sent,
        elim (Reach-IsVetted r) [
          | inl empty ↦ absurd (solid (form_config s.editor.form) (sym key ∙ empty))
          | inr vetted ↦ subst (λ k. Vetted k s.passed) key vetted
        ],
        refl,
      )
