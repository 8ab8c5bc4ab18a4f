-- ===== src/ResourceHost/MimeTypes/Second.antt =====
-- src/MimeTypes.inc, lines 154 to 306.
use my_power_mirror.Base.{List, [], ◌∷◌, Bytes, codes}

unfoldable pub second_types : List (Bytes × Bytes)
second_types =
    (codes "jpg", codes "image/jpeg")
    ∷ (codes "jps", codes "image/x-jps")
    ∷ (codes "js", codes "application/x-javascript")
    ∷ (codes "jut", codes "image/jutvision")
    ∷ (codes "kar", codes "audio/midi")
    ∷ (codes "ksh", codes "application/x-ksh")
    ∷ (codes "la", codes "audio/nspaudio")
    ∷ (codes "lam", codes "audio/x-liveaudio")
    ∷ (codes "latex", codes "application/x-latex")
    ∷ (codes "lha", codes "application/lha")
    ∷ (codes "lhx", codes "application/octet-stream")
    ∷ (codes "list", codes "text/plain")
    ∷ (codes "lma", codes "audio/nspaudio")
    ∷ (codes "log", codes "text/plain")
    ∷ (codes "lsp", codes "application/x-lisp")
    ∷ (codes "lst", codes "text/plain")
    ∷ (codes "lsx", codes "text/x-la-asf")
    ∷ (codes "lzh", codes "application/octet-stream")
    ∷ (codes "lzx", codes "application/lzx")
    ∷ (codes "m", codes "text/plain")
    ∷ (codes "m1v", codes "video/mpeg")
    ∷ (codes "m2a", codes "audio/mpeg")
    ∷ (codes "m2v", codes "video/mpeg")
    ∷ (codes "m3u", codes "audio/x-mpequrl")
    ∷ (codes "man", codes "application/x-troff-man")
    ∷ (codes "map", codes "application/x-navimap")
    ∷ (codes "mar", codes "text/plain")
    ∷ (codes "mbd", codes "application/mbedlet")
    ∷ (codes "mc$", codes "application/x-magic-cap-package-1.0")
    ∷ (codes "mcd", codes "application/mcad")
    ∷ (codes "mcf", codes "image/vasa")
    ∷ (codes "mcf", codes "text/mcf")
    ∷ (codes "mcp", codes "application/netmc")
    ∷ (codes "me", codes "application/x-troff-me")
    ∷ (codes "mht", codes "message/rfc822")
    ∷ (codes "mhtml", codes "message/rfc822")
    ∷ (codes "mid", codes "audio/midi")
    ∷ (codes "midi", codes "audio/midi")
    ∷ (codes "mif", codes "application/x-mif")
    ∷ (codes "mime", codes "www/mime")
    ∷ (codes "mjf", codes "audio/x-vnd.audioexplosion.mjuicemediafile")
    ∷ (codes "mjpg", codes "video/x-motion-jpeg")
    ∷ (codes "mm", codes "application/base64")
    ∷ (codes "mme", codes "application/base64")
    ∷ (codes "mod", codes "audio/mod")
    ∷ (codes "moov", codes "video/quicktime")
    ∷ (codes "mov", codes "video/quicktime")
    ∷ (codes "movie", codes "video/x-sgi-movie")
    ∷ (codes "mp2", codes "audio/mpeg")
    ∷ (codes "mp3", codes "audio/mpeg3")
    ∷ (codes "mpa", codes "audio/mpeg")
    ∷ (codes "mpc", codes "application/x-project")
    ∷ (codes "mpe", codes "video/mpeg")
    ∷ (codes "mpeg", codes "video/mpeg")
    ∷ (codes "mpg", codes "video/mpeg")
    ∷ (codes "mpga", codes "audio/mpeg")
    ∷ (codes "mpp", codes "application/vnd.ms-project")
    ∷ (codes "mpt", codes "application/x-project")
    ∷ (codes "mpv", codes "application/x-project")
    ∷ (codes "mpx", codes "application/x-project")
    ∷ (codes "mrc", codes "application/marc")
    ∷ (codes "ms", codes "application/x-troff-ms")
    ∷ (codes "mv", codes "video/x-sgi-movie")
    ∷ (codes "my", codes "audio/make")
    ∷ (codes "mzz", codes "application/x-vnd.audioexplosion.mzz")
    ∷ (codes "nap", codes "image/naplps")
    ∷ (codes "naplps", codes "image/naplps")
    ∷ (codes "nc", codes "application/x-netcdf")
    ∷ (codes "ncm", codes "application/vnd.nokia.configuration-message")
    ∷ (codes "nif", codes "image/x-niff")
    ∷ (codes "niff", codes "image/x-niff")
    ∷ (codes "nix", codes "application/x-mix-transfer")
    ∷ (codes "nsc", codes "application/x-conference")
    ∷ (codes "nvd", codes "application/x-navidoc")
    ∷ (codes "o", codes "application/octet-stream")
    ∷ (codes "oda", codes "application/oda")
    ∷ (codes "omc", codes "application/x-omc")
    ∷ (codes "omcd", codes "application/x-omcdatamaker")
    ∷ (codes "omcr", codes "application/x-omcregerator")
    ∷ (codes "p", codes "text/x-pascal")
    ∷ (codes "p10", codes "application/pkcs10")
    ∷ (codes "p10", codes "application/x-pkcs10")
    ∷ (codes "p12", codes "application/pkcs-12")
    ∷ (codes "p12", codes "application/x-pkcs12")
    ∷ (codes "p7a", codes "application/x-pkcs7-signature")
    ∷ (codes "p7c", codes "application/pkcs7-mime")
    ∷ (codes "p7c", codes "application/x-pkcs7-mime")
    ∷ (codes "p7m", codes "application/pkcs7-mime")
    ∷ (codes "p7m", codes "application/x-pkcs7-mime")
    ∷ (codes "p7r", codes "application/x-pkcs7-certreqresp")
    ∷ (codes "p7s", codes "application/pkcs7-signature")
    ∷ (codes "part", codes "application/pro_eng")
    ∷ (codes "pas", codes "text/pascal")
    ∷ (codes "pbm", codes "image/x-portable-bitmap")
    ∷ (codes "pcl", codes "application/x-pcl")
    ∷ (codes "pct", codes "image/x-pict")
    ∷ (codes "pcx", codes "image/x-pcx")
    ∷ (codes "pdb", codes "chemical/x-pdb")
    ∷ (codes "pdf", codes "application/pdf")
    ∷ (codes "pfunk", codes "audio/make")
    ∷ (codes "pgm", codes "image/x-portable-graymap")
    ∷ (codes "pic", codes "image/pict")
    ∷ (codes "pict", codes "image/pict")
    ∷ (codes "pkg", codes "application/x-newton-compatible-pkg")
    ∷ (codes "pko", codes "application/vnd.ms-pki.pko")
    ∷ (codes "pl", codes "text/plain")
    ∷ (codes "plx", codes "application/x-pixclscript")
    ∷ (codes "pm", codes "image/x-xpixmap")
    ∷ (codes "pm4", codes "application/x-pagemaker")
    ∷ (codes "pm5", codes "application/x-pagemaker")
    ∷ (codes "png", codes "image/png")
    ∷ (codes "pnm", codes "image/x-portable-anymap")
    ∷ (codes "pot", codes "application/mspowerpoint")
    ∷ (codes "pov", codes "model/x-pov")
    ∷ (codes "ppa", codes "application/vnd.ms-powerpoint")
    ∷ (codes "ppm", codes "image/x-portable-pixmap")
    ∷ (codes "pps", codes "application/mspowerpoint")
    ∷ (codes "ppt", codes "application/powerpoint")
    ∷ (codes "pptx", codes "application/powerpoint")
    ∷ (codes "ppz", codes "application/mspowerpoint")
    ∷ (codes "pre", codes "application/x-freelance")
    ∷ (codes "prt", codes "application/pro_eng")
    ∷ (codes "ps", codes "application/postscript")
    ∷ (codes "psd", codes "application/octet-stream")
    ∷ (codes "pvu", codes "paleovu/x-pv")
    ∷ (codes "pwz", codes "application/vnd.ms-powerpoint")
    ∷ (codes "py", codes "text/x-script.phyton")
    ∷ (codes "pyc", codes "applicaiton/x-bytecode.python")
    ∷ (codes "qcp", codes "audio/vnd.qcelp")
    ∷ (codes "qd3", codes "x-world/x-3dmf")
    ∷ (codes "qd3d", codes "x-world/x-3dmf")
    ∷ (codes "qif", codes "image/x-quicktime")
    ∷ (codes "qt", codes "video/quicktime")
    ∷ (codes "qtc", codes "video/x-qtc")
    ∷ (codes "qti", codes "image/x-quicktime")
    ∷ (codes "qtif", codes "image/x-quicktime")
    ∷ (codes "ra", codes "audio/x-realaudio")
    ∷ (codes "ram", codes "audio/x-pn-realaudio")
    ∷ (codes "ras", codes "image/cmu-raster")
    ∷ (codes "ras", codes "image/x-cmu-raster")
    ∷ (codes "rast", codes "image/cmu-raster")
    ∷ (codes "rexx", codes "text/x-script.rexx")
    ∷ (codes "rf", codes "image/vnd.rn-realflash")
    ∷ (codes "rgb", codes "image/x-rgb")
    ∷ (codes "rm", codes "audio/x-pn-realaudio")
    ∷ (codes "rmi", codes "audio/mid")
    ∷ (codes "rmm", codes "audio/x-pn-realaudio")
    ∷ (codes "rmp", codes "audio/x-pn-realaudio")
    ∷ (codes "rng", codes "application/ringing-tones")
    ∷ (codes "rnx", codes "application/vnd.rn-realplayer")
    ∷ (codes "roff", codes "application/x-troff")
    ∷ (codes "rp", codes "image/vnd.rn-realpix")
    ∷ (codes "rpm", codes "audio/x-pn-realaudio-plugin")
    ∷ []
