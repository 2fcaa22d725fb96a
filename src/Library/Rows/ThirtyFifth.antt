-- ===== src/Library/Rows/ThirtyFifth.antt =====
-- Lines 5106 to 5204 of gazelle/closure_js/closure_library/closure_library.go.
use rules_closure.Prelude.{List, [], ◌∷◌}
use rules_closure.Library.{Row, goog_rows}

abbrev pub thirty_fifth_rows : List Row
thirty_fifth_rows = goog_rows (
    ("ui/emoji:emojipalette", "ui.emoji.EmojiPalette" ∷ [])
    ∷ ("ui/emoji:emojipaletterenderer", "ui.emoji.EmojiPaletteRenderer" ∷ [])
    ∷ ("ui/emoji:emojipicker", "ui.emoji.EmojiPicker" ∷ [])
    ∷ ("ui/emoji:popupemojipicker", "ui.emoji.PopupEmojiPicker" ∷ [])
    ∷ ("ui/emoji:progressiveemojipaletterenderer", "ui.emoji.ProgressiveEmojiPaletteRenderer" ∷ [])
    ∷ ("ui/emoji:spriteinfo", "ui.emoji.SpriteInfo" ∷ [])
    ∷ (
      "ui/media:flashobject",
      "ui.media.FlashObject" ∷ "ui.media.FlashObject.ScriptAccessLevel"
          ∷ "ui.media.FlashObject.Wmodes" ∷ [],
    )
    ∷ ("ui/media:flickr", "ui.media.FlickrSet" ∷ "ui.media.FlickrSetModel" ∷ [])
    ∷ ("ui/media:googlevideo", "ui.media.GoogleVideo" ∷ "ui.media.GoogleVideoModel" ∷ [])
    ∷ ("ui/media:media", "ui.media.Media" ∷ [])
    ∷ (
      "ui/media:mediamodel",
      "ui.media.MediaModel" ∷ "ui.media.MediaModel.Category" ∷ "ui.media.MediaModel.Credit"
          ∷ "ui.media.MediaModel.Credit.Role" ∷ "ui.media.MediaModel.Credit.Scheme"
          ∷ "ui.media.MediaModel.Medium" ∷ "ui.media.MediaModel.MimeType"
          ∷ "ui.media.MediaModel.Player" ∷ "ui.media.MediaModel.SubTitle"
          ∷ "ui.media.MediaModel.Thumbnail" ∷ [],
    )
    ∷ ("ui/media:media", "ui.media.MediaRenderer" ∷ [])
    ∷ ("ui/media:mp3", "ui.media.Mp3" ∷ [])
    ∷ ("ui/media:photo", "ui.media.Photo" ∷ [])
    ∷ ("ui/media:picasa", "ui.media.PicasaAlbum" ∷ "ui.media.PicasaAlbumModel" ∷ [])
    ∷ ("ui/media:vimeo", "ui.media.Vimeo" ∷ "ui.media.VimeoModel" ∷ [])
    ∷ ("ui/media:youtube", "ui.media.Youtube" ∷ "ui.media.YoutubeModel" ∷ [])
    ∷ ("ui:menubar", "ui.menuBar" ∷ [])
    ∷ ("ui:menubardecorator", "ui.menuBarDecorator" ∷ [])
    ∷ ("ui:registry", "ui.registry" ∷ [])
    ∷ ("ui/style/app:buttonrenderer", "ui.style.app.ButtonRenderer" ∷ [])
    ∷ ("ui/style/app:menubuttonrenderer", "ui.style.app.MenuButtonRenderer" ∷ [])
    ∷ ("ui/style/app:primaryactionbuttonrenderer", "ui.style.app.PrimaryActionButtonRenderer" ∷ [])
    ∷ ("ui/tree:basenode", "ui.tree.BaseNode" ∷ "ui.tree.BaseNode.EventType" ∷ [])
    ∷ ("ui/tree:treecontrol", "ui.tree.TreeControl" ∷ [])
    ∷ ("ui/tree:treenode", "ui.tree.TreeNode" ∷ [])
    ∷ ("ui/tree:typeahead", "ui.tree.TypeAhead" ∷ "ui.tree.TypeAhead.Offset" ∷ [])
    ∷ (
      "uri:utils",
      "uri.utils" ∷ "uri.utils.ComponentIndex" ∷ "uri.utils.QueryArray" ∷ "uri.utils.QueryValue"
          ∷ "uri.utils.StandardQueryParam" ∷ [],
    )
    ∷ ("useragent:useragent", "userAgent" ∷ [])
    ∷ ("useragent:adobereader", "userAgent.adobeReader" ∷ [])
    ∷ ("useragent:flash", "userAgent.flash" ∷ [])
    ∷ ("useragent:iphoto", "userAgent.iphoto" ∷ [])
    ∷ ("useragent:jscript", "userAgent.jscript" ∷ [])
    ∷ ("useragent:keyboard", "userAgent.keyboard" ∷ [])
    ∷ ("useragent:platform", "userAgent.platform" ∷ [])
    ∷ ("useragent:product", "userAgent.product" ∷ [])
    ∷ ("useragent:product_isversion", "userAgent.product.isVersion" ∷ [])
    ∷ ("useragent:useragenttestutil", "userAgentTestUtil" ∷ "userAgentTestUtil.UserAgents" ∷ [])
    ∷ ("vec:vec", "vec" ∷ "vec.AnyType" ∷ "vec.ArrayType" ∷ "vec.Float32" ∷ [])
    ∷ ("vec:float32array", "vec.Float32Array" ∷ [])
    ∷ ("vec:vec", "vec.Float64" ∷ [])
    ∷ ("vec:float64array", "vec.Float64Array" ∷ [])
    ∷ ("vec:mat3", "vec.Mat3" ∷ [])
    ∷ ("vec:mat4", "vec.Mat4" ∷ [])
    ∷ ("vec:vec", "vec.Number" ∷ [])
    ∷ ("vec:quaternion", "vec.Quaternion" ∷ "vec.Quaternion.AnyType" ∷ [])
    ∷ ("vec:ray", "vec.Ray" ∷ [])
    ∷ ("vec:vec2", "vec.Vec2" ∷ [])
    ∷ ("vec:vec3", "vec.Vec3" ∷ [])
    ∷ ("vec:vec4", "vec.Vec4" ∷ [])
    ∷ ("vec:mat3d", "vec.mat3d" ∷ "vec.mat3d.Type" ∷ [])
    ∷ ("vec:mat3f", "vec.mat3f" ∷ "vec.mat3f.Type" ∷ [])
    ∷ ("vec:mat4d", "vec.mat4d" ∷ "vec.mat4d.Type" ∷ [])
    ∷ ("vec:mat4f", "vec.mat4f" ∷ "vec.mat4f.Type" ∷ [])
    ∷ ("vec:vec2d", "vec.vec2d" ∷ "vec.vec2d.Type" ∷ [])
    ∷ ("vec:vec2f", "vec.vec2f" ∷ "vec.vec2f.Type" ∷ [])
    ∷ ("vec:vec3d", "vec.vec3d" ∷ "vec.vec3d.Type" ∷ [])
    ∷ ("vec:vec3f", "vec.vec3f" ∷ "vec.vec3f.Type" ∷ [])
    ∷ ("vec:vec4d", "vec.vec4d" ∷ "vec.vec4d.Type" ∷ [])
    ∷ ("vec:vec4f", "vec.vec4f" ∷ "vec.vec4f.Type" ∷ [])
    ∷ ("webgl:webgl", "webgl" ∷ [])
    ∷ ("window:window", "window" ∷ [])
    ∷ [])
