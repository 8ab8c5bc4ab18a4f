-- ===== src/ResourceHost/MimeTypes/Third.antt =====
-- src/MimeTypes.inc, lines 307 to 458.
use my_power_mirror.Base.{List, [], ◌∷◌, Bytes, codes}

unfoldable pub third_types : List (Bytes × Bytes)
third_types =
    (codes "rt", codes "text/richtext")
    ∷ (codes "rt", codes "text/vnd.rn-realtext")
    ∷ (codes "rtf", codes "text/richtext")
    ∷ (codes "rtx", codes "text/richtext")
    ∷ (codes "rv", codes "video/vnd.rn-realvideo")
    ∷ (codes "s", codes "text/x-asm")
    ∷ (codes "s3m", codes "audio/s3m")
    ∷ (codes "saveme", codes "application/octet-stream")
    ∷ (codes "sbk", codes "application/x-tbook")
    ∷ (codes "scm", codes "video/x-scm")
    ∷ (codes "sdml", codes "text/plain")
    ∷ (codes "sdp", codes "application/sdp")
    ∷ (codes "sdp", codes "application/x-sdp")
    ∷ (codes "sdr", codes "application/sounder")
    ∷ (codes "sea", codes "application/sea")
    ∷ (codes "set", codes "application/set")
    ∷ (codes "sgm", codes "text/sgml")
    ∷ (codes "sgml", codes "text/sgml")
    ∷ (codes "sh", codes "text/x-script.sh")
    ∷ (codes "shar", codes "application/x-bsh")
    ∷ (codes "shtml", codes "text/html")
    ∷ (codes "sid", codes "audio/x-psid")
    ∷ (codes "sit", codes "application/x-sit")
    ∷ (codes "skd", codes "application/x-koan")
    ∷ (codes "skm", codes "application/x-koan")
    ∷ (codes "skp", codes "application/x-koan")
    ∷ (codes "skt", codes "application/x-koan")
    ∷ (codes "sl", codes "application/x-seelogo")
    ∷ (codes "smi", codes "application/smil")
    ∷ (codes "smil", codes "application/smil")
    ∷ (codes "snd", codes "audio/basic")
    ∷ (codes "sol", codes "application/solids")
    ∷ (codes "spc", codes "text/x-speech")
    ∷ (codes "spl", codes "application/futuresplash")
    ∷ (codes "spr", codes "application/x-sprite")
    ∷ (codes "sprite", codes "application/x-sprite")
    ∷ (codes "src", codes "application/x-wais-source")
    ∷ (codes "ssi", codes "text/x-server-parsed-html")
    ∷ (codes "ssm", codes "application/streamingmedia")
    ∷ (codes "sst", codes "application/vnd.ms-pki.certstore")
    ∷ (codes "step", codes "application/step")
    ∷ (codes "stl", codes "application/sla")
    ∷ (codes "stp", codes "application/step")
    ∷ (codes "sv4cpio", codes "application/x-sv4cpio")
    ∷ (codes "sv4crc", codes "application/x-sv4crc")
    ∷ (codes "svf", codes "image/x-dwg")
    ∷ (codes "svr", codes "x-world/x-svr")
    ∷ (codes "swf", codes "application/x-shockwave-flash")
    ∷ (codes "t", codes "application/x-troff")
    ∷ (codes "talk", codes "text/x-speech")
    ∷ (codes "tar", codes "application/x-tar")
    ∷ (codes "tbk", codes "application/toolbook")
    ∷ (codes "tcl", codes "text/x-script.tcl")
    ∷ (codes "tcsh", codes "text/x-script.tcsh")
    ∷ (codes "tex", codes "application/x-tex")
    ∷ (codes "texi", codes "application/x-texinfo")
    ∷ (codes "texinfo", codes "application/x-texinfo")
    ∷ (codes "text", codes "text/plain")
    ∷ (codes "tgz", codes "application/gnutar")
    ∷ (codes "tif", codes "image/tiff")
    ∷ (codes "tiff", codes "image/tiff")
    ∷ (codes "tr", codes "application/x-troff")
    ∷ (codes "tsi", codes "audio/tsp-audio")
    ∷ (codes "tsp", codes "audio/tsplayer")
    ∷ (codes "tsv", codes "text/tab-separated-values")
    ∷ (codes "turbot", codes "image/florian")
    ∷ (codes "txt", codes "text/plain")
    ∷ (codes "uil", codes "text/x-uil")
    ∷ (codes "uni", codes "text/uri-list")
    ∷ (codes "unis", codes "text/uri-list")
    ∷ (codes "unv", codes "application/i-deas")
    ∷ (codes "uri", codes "text/uri-list")
    ∷ (codes "uris", codes "text/uri-list")
    ∷ (codes "ustar", codes "application/x-ustar")
    ∷ (codes "uu", codes "application/octet-stream")
    ∷ (codes "uue", codes "text/x-uuencode")
    ∷ (codes "vcd", codes "application/x-cdlink")
    ∷ (codes "vcs", codes "text/x-vcalendar")
    ∷ (codes "vda", codes "application/vda")
    ∷ (codes "vdo", codes "video/vdo")
    ∷ (codes "vew", codes "application/groupwise")
    ∷ (codes "viv", codes "video/vivo")
    ∷ (codes "vivo", codes "video/vivo")
    ∷ (codes "vmd", codes "application/vocaltec-media-desc")
    ∷ (codes "vmf", codes "application/vocaltec-media-file")
    ∷ (codes "voc", codes "audio/voc")
    ∷ (codes "vos", codes "video/vosaic")
    ∷ (codes "vox", codes "audio/voxware")
    ∷ (codes "vqe", codes "audio/x-twinvq-plugin")
    ∷ (codes "vqf", codes "audio/x-twinvq")
    ∷ (codes "vql", codes "audio/x-twinvq-plugin")
    ∷ (codes "vrml", codes "model/vrml")
    ∷ (codes "vrt", codes "x-world/x-vrt")
    ∷ (codes "vsd", codes "application/x-visio")
    ∷ (codes "vst", codes "application/x-visio")
    ∷ (codes "vsw", codes "application/x-visio")
    ∷ (codes "w60", codes "application/wordperfect6.0")
    ∷ (codes "w61", codes "application/wordperfect6.1")
    ∷ (codes "w6w", codes "application/msword")
    ∷ (codes "wav", codes "audio/wav")
    ∷ (codes "wb1", codes "application/x-qpro")
    ∷ (codes "wbmp", codes "image/vnd.wap.wbmp")
    ∷ (codes "web", codes "application/vnd.xara")
    ∷ (codes "wiz", codes "application/msword")
    ∷ (codes "wk1", codes "application/x-123")
    ∷ (codes "wmf", codes "windows/metafile")
    ∷ (codes "wml", codes "text/vnd.wap.wml")
    ∷ (codes "wmlc", codes "application/vnd.wap.wmlc")
    ∷ (codes "wmls", codes "text/vnd.wap.wmlscript")
    ∷ (codes "wmlsc", codes "application/vnd.wap.wmlscriptc")
    ∷ (codes "word", codes "application/msword")
    ∷ (codes "wp", codes "application/wordperfect")
    ∷ (codes "wp5", codes "application/wordperfect")
    ∷ (codes "wp5", codes "application/wordperfect6.0")
    ∷ (codes "wp6", codes "application/wordperfect")
    ∷ (codes "wpd", codes "application/wordperfect")
    ∷ (codes "wq1", codes "application/x-lotus")
    ∷ (codes "wri", codes "application/mswrite")
    ∷ (codes "wrl", codes "application/x-world")
    ∷ (codes "wrz", codes "model/vrml")
    ∷ (codes "wsc", codes "text/scriplet")
    ∷ (codes "wsrc", codes "application/x-wais-source")
    ∷ (codes "wtk", codes "application/x-wintalk")
    ∷ (codes "xbm", codes "image/xbm")
    ∷ (codes "xdr", codes "video/x-amt-demorun")
    ∷ (codes "xgz", codes "xgl/drawing")
    ∷ (codes "xif", codes "image/vnd.xiff")
    ∷ (codes "xl", codes "application/excel")
    ∷ (codes "xla", codes "application/excel")
    ∷ (codes "xlb", codes "application/excel")
    ∷ (codes "xlc", codes "application/excel")
    ∷ (codes "xld", codes "application/excel")
    ∷ (codes "xlk", codes "application/excel")
    ∷ (codes "xll", codes "application/excel")
    ∷ (codes "xlm", codes "application/excel")
    ∷ (codes "xls", codes "application/excel")
    ∷ (codes "xlsx", codes "application/excel")
    ∷ (codes "xlt", codes "application/excel")
    ∷ (codes "xlw", codes "application/excel")
    ∷ (codes "xm", codes "audio/xm")
    ∷ (codes "xml", codes "text/xml")
    ∷ (codes "xmz", codes "xgl/movie")
    ∷ (codes "xpix", codes "application/x-vnd.ls-xpix")
    ∷ (codes "xpm", codes "image/xpm")
    ∷ (codes "x-png", codes "image/png")
    ∷ (codes "xsr", codes "video/x-amt-showrun")
    ∷ (codes "xwd", codes "image/x-xwd")
    ∷ (codes "xyz", codes "chemical/x-pdb")
    ∷ (codes "z", codes "application/x-compressed")
    ∷ (codes "zip", codes "application/zip")
    ∷ (codes "zoo", codes "application/octet-stream")
    ∷ (codes "zsh", codes "text/x-script.zsh")
    ∷ []
