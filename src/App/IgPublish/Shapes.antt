-- ===== src/App/IgPublish/Shapes.antt =====
-- What a request to publish on Instagram is, for each media type.
use meta_mcp.Exec.{ok}
use meta_mcp.Prelude.{
  ◌+◌, trim_space, length, ◌==◌, ℕ, ◌≡◌, refl, ◌⊎◌, ◌≤◌, ◌≢◌, Option-cases, Bool-cases, inl, inr,
  String, arith, List, [], ◌∷◌, eq_iff, All, none, some,
}
use meta_mcp.App.Service.{Formats}
use meta_mcp.Domain.Entities.{IgPublishRequest}
use meta_mcp.Auth.Server.{Url}
use meta_mcp.App.IgPublish.{
  child_field, trimmed_ig_request, max_carousel_items, IgPublishInput, min_carousel_items,
  collect_child, checked_ig_request, stories_request, reels_request, image_request,
  carousel_request, carousel_children, build_ig_publish_request,
}
use meta_mcp.App.Window.{validate_https_url}
use meta_mcp.Exec.Run.{Result-cases}

-- A URL that parses, with a host and the scheme https.
abbrev pub IsHttps : Formats → String → Type 0
IsHttps f raw = (u : Url) × (f.parse_url raw ≡ some u) × (u.scheme ≡ "https") × (u.host ≢ "")

abbrev IsImage : Formats → IgPublishRequest → Type 0
IsImage f req = (req.media_type ≡ "IMAGE") × IsHttps f req.image_url

abbrev IsReels : Formats → IgPublishRequest → Type 0
IsReels f req = (req.media_type ≡ "REELS") × IsHttps f req.video_url

abbrev IsStory : Formats → IgPublishRequest → Type 0
IsStory f req =
    (req.media_type ≡ "STORIES")
    × (req.caption ≡ "")
    × (((req.image_url ≡ "") × IsHttps f req.video_url)
        ⊎ ((req.video_url ≡ "") × IsHttps f req.image_url))

abbrev IsCarousel : Formats → IgPublishRequest → Type 0
IsCarousel f req =
    (req.media_type ≡ "CAROUSEL")
    × (min_carousel_items ≤ length req.children)
    × (length req.children ≤ max_carousel_items)
    × All (IsHttps f) req.children

abbrev pub IsPublishable : Formats → IgPublishRequest → Type 0
IsPublishable f req = IsImage f req ⊎ IsReels f req ⊎ IsStory f req ⊎ IsCarousel f req

module _ (f : Formats) where
  validate_https_url-IsHttps :
      (raw field : String) → validate_https_url f raw field ≡ none → IsHttps f raw
  unfolding validate_https_url
  validate_https_url-IsHttps raw field h = elim (Option-cases (f.parse_url raw)) [
    | inl bad ↦ absurd (ground arith)
    | inr (u, parses) ↦
        (u, parses, ground (arith, eq_iff u.scheme "https"), λ e. ground (arith, eq_iff u.host ""))
  ]

  carousel_children-All :
      (i : ℕ) (raws : List String) {children : List String}
      → carousel_children f i raws ≡ ok children
      → All (IsHttps f) children
  unfolding carousel_children collect_child
  carousel_children-All i [] {children} h = let e : [] ≡ children = ground arith in rw (← e) tt
  carousel_children-All i (raw ∷ raws) {children} h = elim (Bool-cases (trim_space raw == "")) [
    | inl blank ↦ carousel_children-All (i + 1) raws (ground arith)
    | inr some_text ↦
        elim (Option-cases (validate_https_url f (trim_space raw) (child_field f i))) [
          | inr (e, bad) ↦ absurd (ground arith)
          | inl fine ↦ elim (Result-cases (carousel_children f (i + 1) raws)) [
            | inl (e, bad) ↦ absurd (ground arith)
            | inr (rest, good) ↦
                let e : trim_space raw ∷ rest ≡ children = ground arith in
                rw (← e) (
                  validate_https_url-IsHttps (trim_space raw) (child_field f i) fine,
                  carousel_children-All (i + 1) raws good,
                )
          ]
        ]
  ]

  image_request-IsImage :
      (req : IgPublishRequest) {out : IgPublishRequest}
      → req.media_type ≡ "IMAGE"
      → image_request f req ≡ ok out
      → IsImage f out
  unfolding image_request
  image_request-IsImage req {out} m h =
      let same : req ≡ out = ground arith in
      rw (← same) (
        m,
        validate_https_url-IsHttps req.image_url "image_url"
            (elim (Option-cases (validate_https_url f req.image_url "image_url")) [
              | inl e ↦ e
              | inr (x, bad) ↦ absurd (ground arith)
            ]),
      )

  reels_request-IsReels :
      (req : IgPublishRequest) {out : IgPublishRequest}
      → req.media_type ≡ "REELS"
      → reels_request f req ≡ ok out
      → IsReels f out
  unfolding reels_request
  reels_request-IsReels req {out} m h =
      let same : req ≡ out = ground arith in
      rw (← same) (
        m,
        validate_https_url-IsHttps req.video_url "video_url"
            (elim (Option-cases (validate_https_url f req.video_url "video_url")) [
              | inl e ↦ e
              | inr (x, bad) ↦ absurd (ground arith)
            ]),
      )

  stories_request-IsStory :
      (req : IgPublishRequest) {out : IgPublishRequest}
      → req.media_type ≡ "STORIES"
      → stories_request f req ≡ ok out
      → IsStory f out
  unfolding stories_request
  stories_request-IsStory req {out} m h =
      let same : record req { caption = "" } ≡ out = ground arith in
      rw (← same) (
        m,
        refl,
        elim (Bool-cases (req.video_url == "")) [
          | inl no_video ↦ inr (
            ground (arith, eq_iff req.video_url ""),
            validate_https_url-IsHttps req.image_url "image_url"
                (elim (Option-cases (validate_https_url f req.image_url "image_url")) [
                  | inl e ↦ e
                  | inr (x, bad) ↦ absurd (ground arith)
                ]),
          )
          | inr video ↦ inl (
            ground (arith, eq_iff req.image_url ""),
            validate_https_url-IsHttps req.video_url "video_url"
                (elim (Option-cases (validate_https_url f req.video_url "video_url")) [
                  | inl e ↦ e
                  | inr (x, bad) ↦ absurd (ground arith)
                ]),
          )
        ],
      )

  carousel_request-IsCarousel :
      (req : IgPublishRequest) (raws : List String) {out : IgPublishRequest}
      → req.media_type ≡ "CAROUSEL"
      → carousel_request f req raws ≡ ok out
      → IsCarousel f out
  unfolding carousel_request
  carousel_request-IsCarousel req raws {out} m h =
      elim (Result-cases (carousel_children f 0 raws)) [
        | inl (e, bad) ↦ absurd (ground arith)
        | inr (children, good) ↦
            let same : record req { children = children } ≡ out = ground arith in
            rw (← same) (m, ground arith, ground arith, carousel_children-All 0 raws good)
      ]

  -- A request that is built has one of four shapes, each with its URLs on https: an image; a video; a
  -- story, with an image or a video and not both, and no caption; a carousel of two to ten items.
  pub build_ig_publish_request-IsPublishable :
      (i : IgPublishInput) {out : IgPublishRequest}
      → build_ig_publish_request f i ≡ ok out
      → IsPublishable f out
  unfolding build_ig_publish_request checked_ig_request
  build_ig_publish_request-IsPublishable i {out} h =
      let req = trimmed_ig_request i in
      elim (Bool-cases (req.media_type == "STORIES")) [
        | inl s ↦ inr (
            inr (
              inl (
                stories_request-IsStory req {out = out}
                  (ground (arith, eq_iff req.media_type "STORIES")) (ground arith))))
        | inr s ↦ elim (Bool-cases (req.media_type == "IMAGE")) [
          | inl m ↦ inl (
              image_request-IsImage req {out = out} (ground (arith, eq_iff req.media_type "IMAGE"))
                (ground arith))
          | inr m ↦ elim (Bool-cases (req.media_type == "REELS")) [
            | inl v ↦ inr (
                inl (
                  reels_request-IsReels req {out = out}
                    (ground (arith, eq_iff req.media_type "REELS")) (ground arith)))
            | inr v ↦ elim (Bool-cases (req.media_type == "CAROUSEL")) [
              | inl c ↦ inr (
                  inr (
                    inr (
                      carousel_request-IsCarousel req i.children {out = out}
                        (ground (arith, eq_iff req.media_type "CAROUSEL")) (ground arith))))
              | inr c ↦ absurd (ground arith)
            ]
          ]
        ]
      ]
